-- ===== src/BitmapSet.antt =====
-- libhpack/bitmap_set.c and bitmap_set.h: sets of header-table indexes, a bit for each, on a
-- machine of 64-bit words.
pub mod Member
pub mod Algebra
pub mod Search
pub mod Next
pub mod Advance
pub mod Words
pub mod Compare
mod Tests
use libhpack.Common.{ℕ, zero, suc, ◌+◌, ◌-◌, ◌*◌, ◌/◌, ◌%◌, ◌^◌, bit_and, bit_or, bit_xor}
use libhpack.Common.{Bool, true, false, not, ◌&&◌, Option, none, some, leb, ◌==◌, if◌then◌else◌}
use libhpack.Common.Ret.{Ret, ok, error}

-- `HPACK_MAX_HEADER_TABLE_ENTRIES`
abbrev pub max_entries : ℕ
max_entries = 128

-- `BITMAP_SET_SHIFT` and `BITMAP_SET_MASK`
abbrev pub set_shift : ℕ
set_shift = 6

abbrev pub set_mask : ℕ
set_mask = 64 - 1

-- `~(hpack_set_entry_t) 0`
abbrev pub all_ones : ℕ
all_ones = 2 ^ 64 - 1

-- `hpack_set_t`: an array of `HPACK_SET_NUM_ENTRIES` words, which are two.
pub record BitmapSet : Type 0 where
  pub entry0 : ℕ
  pub entry1 : ℕ

-- `b_set[i]`, for `i` below two.
abbrev pub entry : BitmapSet → ℕ → ℕ
entry s i = if i == 0 then s.entry0 else s.entry1

abbrev pub set_entry : BitmapSet → ℕ → ℕ → BitmapSet
set_entry s i w =
    if i == 0
    then record { entry0 = w; entry1 = s.entry1 }
    else record { entry0 = s.entry0; entry1 = w }

-- `(hpack_set_entry_t) 1 << (idx & BITMAP_SET_MASK)`
abbrev pub place : ℕ → ℕ
place idx = 2 ^ bit_and idx set_mask % 2 ^ 64

unfoldable pub clear : BitmapSet → BitmapSet
clear s = record { entry0 = 0; entry1 = 0 }

unfoldable pub fill : BitmapSet → BitmapSet
fill s = record { entry0 = all_ones; entry1 = all_ones }

unfoldable pub init : BitmapSet → Bool → BitmapSet
unfolding clear fill
init s fill_set = if fill_set then fill s else clear s

unfoldable pub add : BitmapSet → ℕ → Ret × BitmapSet
add s idx =
    if leb max_entries idx
    then (error, s)
    else let i = idx / 2 ^ set_shift in (ok, set_entry s i (bit_or (entry s i) (place idx)))

unfoldable pub remove : BitmapSet → ℕ → Ret × BitmapSet
remove s idx =
    if leb max_entries idx
    then (error, s)
    else let i = idx / 2 ^ set_shift in
      (ok, set_entry s i (bit_and (entry s i) (all_ones - place idx)))

unfoldable pub exists : BitmapSet → ℕ → Bool
exists s idx =
    if leb max_entries idx
    then false
    else not (bit_and (entry s (idx / 2 ^ set_shift)) (place idx) == 0)

-- The loops over the entries of two sets.
abbrev each_entry : (ℕ → ℕ → ℕ) → BitmapSet → BitmapSet → BitmapSet
each_entry f s t = record { entry0 = f s.entry0 t.entry0; entry1 = f s.entry1 t.entry1 }

unfoldable pub union : BitmapSet → BitmapSet → BitmapSet
union = each_entry (λ a b. bit_or a b)

unfoldable pub relative_comp : BitmapSet → BitmapSet → BitmapSet
relative_comp = each_entry (λ a b. bit_and a (all_ones - b))

unfoldable pub intersection : BitmapSet → BitmapSet → BitmapSet
intersection = each_entry (λ a b. bit_and a b)

unfoldable pub complement : BitmapSet → BitmapSet
complement s = each_entry (λ a b. all_ones - a) s s

-- `hpack_set_set`
unfoldable pub clone : BitmapSet → BitmapSet → BitmapSet
clone = each_entry (λ a b. b)

unfoldable pub is_empty : BitmapSet → Bool
is_empty s = (s.entry0 == 0) && (s.entry1 == 0)

unfoldable pub is_full : BitmapSet → Bool
is_full s = (s.entry0 == all_ones) && (s.entry1 == all_ones)

unfoldable pub equals : BitmapSet → BitmapSet → Bool
equals s t = (bit_xor s.entry0 t.entry0 == 0) && (bit_xor s.entry1 t.entry1 == 0)

-- `hpack_set_iterator_t` without its pointer: the set that it points to is an argument of `next`.
-- (The initial position is also what `hpack_set_iter_reset` goes back to.)
pub record Iterator : Type 0 where
  pub bit_pos : ℕ
  pub entry_pos : ℕ

unfoldable pub iter_init : Iterator
iter_init = record { bit_pos = 0; entry_pos = 0 }

unfoldable pub iter_reset : Iterator → Iterator
iter_reset it = record { bit_pos = 0; entry_pos = 0 }

-- The inner loop of `hpack_set_iter_next` on one word, `left` bits before its end: where it stops,
-- and the bit found.
scan_bits : ℕ → ℕ → ℕ → ℕ × Option ℕ
scan_bits zero w b = (b, none)
scan_bits (suc left) w b =
    let rest = scan_bits left w (b + 1) in
    if bit_and w (2 ^ b % 2 ^ 64) == 0 then rest else (b + 1, some b)

-- `1 << b` is an `int`, which C defines for `b` below 31 only. What the compiled code makes of it,
-- widened to a word, is the parameter `shl_int`.
module _ (shl_int : ℕ → ℕ) where
  -- `iter->set[entry] & ~((hpack_set_entry_t) (1 << iter->bit)-1)`
  pub has_rest : ℕ → ℕ → Bool
  has_rest w b = not (bit_and w (all_ones - (shl_int b + all_ones) % 2 ^ 64) == 0)

  -- The outer loop, `left` entries before the end. `none` is the -1 of C.
  next_loop : ℕ → BitmapSet → Iterator → Iterator × Option ℕ
  next_loop zero s it = (it, none)
  next_loop (suc left) s it =
      let w = entry s it.entry_pos in
      let onward = next_loop left s (record { bit_pos = 0; entry_pos = it.entry_pos + 1 }) in
      let (b, found) = scan_bits (64 - it.bit_pos) w it.bit_pos in
      let at : Iterator =
        if b == 64
        then record { bit_pos = 0; entry_pos = it.entry_pos + 1 }
        else record { bit_pos = b; entry_pos = it.entry_pos } in
      if has_rest w it.bit_pos
      then elim found [ none ↦ onward | some f ↦ (at, some (f + it.entry_pos * 64)) ]
      else onward

  unfoldable pub next : BitmapSet → Iterator → Iterator × Option ℕ
  unfolding next_loop scan_bits has_rest
  next s it = next_loop (2 - it.entry_pos) s it
