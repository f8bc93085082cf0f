-- ===== src/BitmapSet/Advance.antt =====
-- The iterator moves on with every member that it finds.
use libhpack.Common.{
  ℕ, zero, suc, ◌+◌, ◌-◌, ◌*◌, ◌^◌, ◌%◌, ◌≤◌, ◌<◌, ◌≡◌, refl, arith, min, some, ◌==◌, bit_and,
}
use libhpack.Common.{Bool-cases, Option-cases, inl, inr}
use libhpack.BitmapSet.{BitmapSet, Iterator, entry, scan_bits, has_rest, next_loop, next}

-- How many indexes an iterator has before it.
abbrev pub ahead : Iterator → ℕ
ahead it = (2 - it.entry_pos) * 64 - min it.bit_pos 64

scan_bits_moves :
    (n w b : ℕ) {f : ℕ}
    → (scan_bits n w b).1 ≡ some f
    → (b < (scan_bits n w b).0) × ((scan_bits n w b).0 ≤ b + n)
unfolding scan_bits
scan_bits_moves zero w b e = cc
scan_bits_moves (suc n) w b {f} e = elim (Bool-cases (bit_and w (2 ^ b % 2 ^ 64) == 0)) [
  | inl clear ↦
      let (h1, h2) = scan_bits_moves n w (b + 1) {f = f} (rw clear at e) in
      rw clear (omega arith, omega arith)
  | inr hit ↦ rw hit (omega arith, omega arith)
]

module _ (shl_int : ℕ → ℕ) where
  next_loop_moves :
      (left : ℕ) (s : BitmapSet) (it : Iterator) {f : ℕ}
      → left ≡ 2 - it.entry_pos
      → (next_loop shl_int left s it).1 ≡ some f
      → ahead (next_loop shl_int left s it).0 < ahead it
  unfolding next_loop
  next_loop_moves zero s it h e = cc
  next_loop_moves (suc left) s it {f} h e =
      let w = entry s it.entry_pos in
      let on : Iterator = record { bit_pos = 0; entry_pos = it.entry_pos + 1 } in
      let later = λ (e' : (next_loop shl_int left s on).1 ≡ some f).
        next_loop_moves left s on {f = f} (omega arith) e' in
      elim (Bool-cases (has_rest shl_int w it.bit_pos)) [
        | inr no_rest ↦ rw no_rest (let k = later (rw no_rest at e) in omega arith)
        | inl rest ↦ elim (Option-cases (scan_bits (64 - it.bit_pos) w it.bit_pos).1) [
          | inl none_found ↦
              rw (rest, none_found) (let k = later (rw (rest, none_found) at e) in omega arith)
          | inr (g, found) ↦
              let (h1, h2) = scan_bits_moves (64 - it.bit_pos) w it.bit_pos {f = g} found in
              elim (Bool-cases ((scan_bits (64 - it.bit_pos) w it.bit_pos).0 == 64)) [
                | inl whole ↦ rw (rest, found, whole) (omega arith)
                | inr part ↦ rw (rest, found, part) (ground arith)
              ]
        ]
      ]

  pub next_moves :
      (s : BitmapSet) (it : Iterator) {f : ℕ}
      → (next shl_int s it).1 ≡ some f
      → ahead (next shl_int s it).0 < ahead it
  unfolding next
  next_moves s it {f} e = next_loop_moves (2 - it.entry_pos) s it {f = f} refl e
