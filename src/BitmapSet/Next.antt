-- ===== src/BitmapSet/Next.antt =====
-- `hpack_set_iter_next` against a plain search for the next member.
use libhpack.Common.{ℕ, zero, suc, ◌+◌, ◌-◌, ◌*◌, ◌/◌, ◌%◌, ◌^◌, ◌≤◌, ◌<◌, bit_and}
use libhpack.Common.{◌≡◌, refl, sym, ap, ◌∙◌, inl, inr, arith, Option-cases, ◌==◌, if◌then◌else◌}
use libhpack.Common.{false, Option, none, some}
use libhpack.Common.{bit, bit_zero, bit_complement, bit_above, bit-bit_and, bit_and-pow}
use libhpack.BitmapSet.{
  BitmapSet, entry, exists, all_ones, Iterator, scan_bits, has_rest, next_loop, next,
}
use libhpack.BitmapSet.Search.{first_from, IsLeast, first_from-IsLeast}
use libhpack.BitmapSet.Member.{exists_bit, test_bit, pow-lt-word}
use native.Mathlib.Nat.{one-le-pow, mod-eq_of_lt}

-- The first bit set among the `n` bits of a word from `b` on.
first_bit : ℕ → ℕ → ℕ → Option ℕ
first_bit zero w b = none
first_bit (suc n) w b = let rest = first_bit n w (b + 1) in if bit w b then some b else rest

-- Where a search goes on, `end` being the end of what it searched.
unfoldable pub after : ℕ → Option ℕ → ℕ
after end none = end
after end (some f) = f + 1

scan_bits-first_bit :
    (n w b : ℕ) → b + n ≡ 64 → scan_bits n w b ≡ (after 64 (first_bit n w b), first_bit n w b)
unfolding scan_bits first_bit after
scan_bits-first_bit zero w b h = ground arith
scan_bits-first_bit (suc n) w b h = ground (
  arith,
  mod-eq_of_lt (pow-lt-word b (omega arith)),
  test_bit w b,
  scan_bits-first_bit n w (b + 1),
)

first_bit-none :
    (n w b : ℕ) → ((i : ℕ) → b ≤ i → i < b + n → bit w i ≡ false) → first_bit n w b ≡ none
unfolding first_bit
first_bit-none zero w b h = refl
first_bit-none (suc n) w b h =
    rw (h b (omega arith) (omega arith))
      (first_bit-none n w (b + 1) (λ i p q. h i (omega arith) (omega arith)))

first_bit_bounds : (n w b : ℕ) {f : ℕ} → first_bit n w b ≡ some f → (b ≤ f) × (f < b + n)
unfolding first_bit
first_bit_bounds zero w b e = cc
first_bit_bounds (suc n) w b {f} e = ground (arith, first_bit_bounds n w (b + 1) {f = f})

-- Where the shift is right, the test on the rest of a word misses no bit.
has_rest-first_bit :
    (shl_int : ℕ → ℕ) (w b : ℕ)
    → b < 64
    → shl_int b ≡ 2 ^ b
    → has_rest shl_int w b ≡ false
    → first_bit (64 - b) w b ≡ none
unfolding has_rest
has_rest-first_bit shl_int w b hb hs h = first_bit-none (64 - b) w b clear_bit
  where
    mask : ℕ
    mask = all_ones - (2 ^ b - 1)

    mask_is : all_ones - (shl_int b + all_ones) % 2 ^ 64 ≡ mask
    mask_is = rw hs (omega (arith, one-le-pow b 2, pow-lt-word b hb))

    no_bits : bit_and w mask ≡ 0
    no_bits =
        rw mask_is at
          (let e : bit_and w (all_ones - (shl_int b + all_ones) % 2 ^ 64) ≡ 0 = ground arith in e)

    clear_bit : (i : ℕ) → b ≤ i → i < b + (64 - b) → bit w i ≡ false
    clear_bit i p q = ground (
      arith,
      bit-bit_and i w mask,
      ap (λ v. bit v i) no_bits,
      bit_zero i,
      bit_complement 64 i (2 ^ b - 1) (omega (arith, one-le-pow b 2, pow-lt-word b hb))
          (omega arith),
      bit_above b i (2 ^ b - 1) (omega (arith, one-le-pow b 2)) p,
    )

-- The index that an iterator looks at first.
abbrev pub position : Iterator → ℕ
position it = it.entry_pos * 64 + it.bit_pos

or_else : Option ℕ → Option ℕ → Option ℕ
or_else none o = o
or_else (some f) o = some f

up : ℕ → Option ℕ → Option ℕ
up d none = none
up d (some f) = some (f + d)

first_from-word :
    (s : BitmapSet) (e n b : ℕ)
    → e < 2
    → b + n ≤ 64
    → first_from n s (e * 64 + b) ≡ up (e * 64) (first_bit n (entry s e) b)
unfolding first_from first_bit up
first_from-word s e zero b he h = refl
first_from-word s e (suc n) b he h =
    let q : (e * 64 + b) / 64 ≡ e = omega arith in
    let r : (e * 64 + b) % 64 ≡ b = omega arith in
    let here : exists s (e * 64 + b) ≡ bit (entry s e) b =
      exists_bit s (e * 64 + b) (omega arith) ∙ rw (q, r) in
    ground (arith, here, first_from-word s e n (b + 1))

first_from-split :
    (s : BitmapSet) (n m k i : ℕ)
    → k ≡ n + m
    → first_from k s i ≡ or_else (first_from n s i) (first_from m s (i + n))
unfolding first_from or_else
first_from-split s zero m k i e = ground arith
first_from-split s (suc n) m zero i e = absurd (omega arith)
first_from-split s (suc n) m (suc k) i e =
    ground (arith, first_from-split s n m k (i + 1) (omega arith))

module _ (shl_int : ℕ → ℕ) (s : BitmapSet) where
  -- Where an iterator stands once bit `f` of word `e` is found.
  past : ℕ → ℕ → Iterator
  past e f =
      if f + 1 == 64
      then record { bit_pos = 0; entry_pos = e + 1 }
      else record { bit_pos = f + 1; entry_pos = e }

  loop_round :
      (left e b : ℕ)
      → b < 64
      → shl_int b ≡ 2 ^ b
      → next_loop shl_int (suc left) s (record { bit_pos = b; entry_pos = e })
        ≡ (elim (first_bit (64 - b) (entry s e) b) [
          | none ↦ next_loop shl_int left s (record { bit_pos = 0; entry_pos = e + 1 })
          | some f ↦ (past e f, some (f + e * 64))
        ])
  unfolding next_loop past after
  loop_round left e b hb hs = ground (
    arith,
    scan_bits-first_bit (64 - b) (entry s e) b (omega arith),
    has_rest-first_bit shl_int (entry s e) b hb hs,
  )

abbrev pub standing : ℕ → ℕ → Iterator
standing e b = record { bit_pos = b; entry_pos = e }

-- The iterator that a call leaves, and the index that it returns, are those of the plain search.
pub record IsNext (s : BitmapSet) (it : Iterator) (out : Iterator × Option ℕ) : Type 0 where
  pub found : out.1 ≡ first_from (128 - position it) s (position it)
  pub moved : position out.0 ≡ after 128 out.1
  pub bit_in : out.0.bit_pos < 64

module _ (shl_int : ℕ → ℕ) (s : BitmapSet) (b : ℕ) (hb : b < 64) (hs : shl_int b ≡ 2 ^ b) where
  in_word1 : IsNext s (standing 1 b) (next_loop shl_int 1 s (standing 1 b))
  in_word1 =
      rw (loop_round shl_int s 0 1 b hb hs) (elim (Option-cases (first_bit (64 - b) s.entry1 b)) [
        | inl ends ↦ rw ends (record {
          found = unfold next_loop up in ground (arith, first_from-word s 1 (64 - b) b, ends);
          moved = unfold next_loop after in refl;
          bit_in = unfold next_loop in omega arith;
        })
        | inr (f, e) ↦
            let bounds = first_bit_bounds (64 - b) s.entry1 b e in
            rw e (record {
              found = unfold up in ground (arith, first_from-word s 1 (64 - b) b, e);
              moved = unfold past after in ground arith;
              bit_in = unfold past in ground arith;
            })
      ])

-- The search from a position in the first word goes through both words.
module _ (shl_int : ℕ → ℕ) (s : BitmapSet) (b : ℕ) (hb : b < 64) (hs : shl_int b ≡ 2 ^ b)
    (h0 : shl_int 0 ≡ 1) where
  both_words :
      first_from (128 - b) s b ≡ or_else (up 0 (first_bit (64 - b) s.entry0 b)) (first_from 64 s 64)
  both_words = ground (
    arith,
    first_from-split s (64 - b) 64 (128 - b) b (omega arith),
    first_from-word s 0 (64 - b) b,
  )

  in_word0 : IsNext s (standing 0 b) (next_loop shl_int 2 s (standing 0 b))
  in_word0 =
      rw (loop_round shl_int s 1 0 b hb hs) (elim (Option-cases (first_bit (64 - b) s.entry0 b)) [
        | inl ends ↦
            let later = in_word1 shl_int s 0 (omega arith) h0 in
            rw ends (record {
              found = unfold up or_else in ground (arith, both_words, ends, later.found);
              moved = later.moved;
              bit_in = later.bit_in;
            })
        | inr (f, e) ↦
            let bounds = first_bit_bounds (64 - b) s.entry0 b e in
            rw e (record {
              found = unfold up or_else in ground (arith, both_words, e);
              moved = unfold past after in ground arith;
              bit_in = unfold past in ground arith;
            })
      ])

pub next-IsNext :
    (shl_int : ℕ → ℕ) (s : BitmapSet) (it : Iterator)
    → shl_int 0 ≡ 1
    → shl_int it.bit_pos ≡ 2 ^ it.bit_pos
    → it.bit_pos < 64
    → position it ≤ 128
    → IsNext s it (next shl_int s it)
unfolding next
next-IsNext shl_int s it h0 hs hb hp = by_entry it.entry_pos it.bit_pos hs hb hp
  where
    by_entry :
        (e b : ℕ)
        → shl_int b ≡ 2 ^ b
        → b < 64
        → e * 64 + b ≤ 128
        → IsNext s (standing e b) (next_loop shl_int (2 - e) s (standing e b))
    by_entry zero b hs hb hp = in_word0 shl_int s b hb hs h0
    by_entry (suc zero) b hs hb hp = in_word1 shl_int s b hb hs
    by_entry (suc (suc zero)) b hs hb hp = record {
      found = let e : b ≡ 0 = omega arith in rw e (unfold next_loop first_from in refl);
      moved = unfold next_loop after in omega arith;
      bit_in = unfold next_loop in hb;
    }
    by_entry (suc (suc (suc e))) b hs hb hp = absurd (omega arith)

-- Where `1 << bit` is the power of two at the iterator's bit (C says so below 31, and at 0), the
-- call returns the least member from the iterator's position on, and -1 only where there is none;
-- the iterator it leaves stands just behind that member, or at the end of the set.
pub next-IsLeast :
    (shl_int : ℕ → ℕ) (s : BitmapSet) (it : Iterator)
    → shl_int 0 ≡ 1
    → shl_int it.bit_pos ≡ 2 ^ it.bit_pos
    → it.bit_pos < 64
    → position it ≤ 128
    → let (it', found) = next shl_int s it in
      IsLeast (128 - position it) s (position it) found × (position it' ≡ after 128 found)
next-IsLeast shl_int s it h0 hs hb hp =
    let is = next-IsNext shl_int s it h0 hs hb hp in
    (rw is.found (first_from-IsLeast (128 - position it) s (position it)), is.moved)

-- Where the shift by 31 gives the negative `int` that compilers make of it, a set without index 31
-- loses its members from 32 to 63: an iterator at bit 31 of the first word goes on to the second.
pub next_skips :
    (shl_int : ℕ → ℕ) (s : BitmapSet)
    → shl_int 31 ≡ 2 ^ 64 - 2 ^ 31
    → shl_int 0 ≡ 1
    → exists s 31 ≡ false
    → (next shl_int s (standing 0 31)).1 ≡ first_from 64 s 64
next_skips shl_int s h31 h0 out =
    ap (λ o. o.1) to_word1 ∙ (in_word1 shl_int s 0 (omega arith) h0).found
  where
    no_bit : bit s.entry0 31 ≡ false
    no_bit = sym (exists_bit s 31 (omega arith)) ∙ out

    tested : bit_and s.entry0 (all_ones - (shl_int 31 + all_ones) % 2 ^ 64) ≡ 0
    tested = rw h31 (bit_and-pow 31 s.entry0 ∙ rw no_bit)

    to_word1 : next shl_int s (standing 0 31) ≡ next_loop shl_int 1 s (standing 1 0)
    to_word1 = unfold next next_loop has_rest in rw tested
