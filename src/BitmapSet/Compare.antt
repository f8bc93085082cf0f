-- ===== src/BitmapSet/Compare.antt =====
-- The tests on whole sets decide what they mean on members.
use libhpack.Common.{ℕ, ◌+◌, ◌/◌, ◌%◌, ◌<◌}
use libhpack.Common.{◌≡◌, ◌↔◌, sym, ◌∙◌, arith}
use libhpack.Common.{true, false}
use libhpack.Common.{bit, bit_zero, bit_complement, eq_of_bits, bit_xor-zero→, bit_xor_self}
use libhpack.BitmapSet.{BitmapSet, exists, clear, fill, is_empty, is_full, equals}
use libhpack.BitmapSet.Member.{IsWords, exists_bit}
use libhpack.BitmapSet.Words.{clear-IsWords, fill-IsWords}
use libhpack.BitmapSet.Algebra.{exists-clear, exists-fill}

low_bit : (s : BitmapSet) (i : ℕ) → i < 64 → exists s i ≡ bit s.entry0 i
low_bit s i h =
    let q : i / 64 ≡ 0 = omega arith in
    let r : i % 64 ≡ i = omega arith in exists_bit s i (omega arith) ∙ rw (q, r)

high_bit : (s : BitmapSet) (i : ℕ) → i < 64 → exists s (i + 64) ≡ bit s.entry1 i
high_bit s i h =
    let q : (i + 64) / 64 ≡ 1 = omega arith in
    let r : (i + 64) % 64 ≡ i = omega arith in exists_bit s (i + 64) (omega arith) ∙ rw (q, r)

-- Sets with the same members are equal, word for word.
BitmapSet_ext :
    (s t : BitmapSet)
    → IsWords s
    → IsWords t
    → ((i : ℕ) → i < 128 → exists s i ≡ exists t i)
    → (s.entry0 ≡ t.entry0) × (s.entry1 ≡ t.entry1)
BitmapSet_ext s t ws wt same = (
  eq_of_bits 64 s.entry0 t.entry0 ws.word0 wt.word0
      (λ i h. sym (low_bit s i h) ∙ same i (omega arith) ∙ low_bit t i h),
  eq_of_bits 64 s.entry1 t.entry1 ws.word1 wt.word1
      (λ i h. sym (high_bit s i h) ∙ same (i + 64) (omega arith) ∙ high_bit t i h),
)

-- The comparison says yes exactly to sets that have the same members.
equals_iff :
    (s t : BitmapSet)
    → IsWords s
    → IsWords t
    → (equals s t ≡ true) ↔ ((i : ℕ) → i < 128 → exists s i ≡ exists t i)
unfolding equals
equals_iff s t ws wt = (
  λ h i hi. ground (
    arith,
    bit_xor-zero→ s.entry0 t.entry0,
    bit_xor-zero→ s.entry1 t.entry1,
    exists_bit s i hi,
    exists_bit t i hi,
  ),
  λ same.
      ground (arith, BitmapSet_ext s t ws wt same, bit_xor_self s.entry0, bit_xor_self s.entry1),
)

is_empty_iff :
    (s : BitmapSet) → IsWords s → (is_empty s ≡ true) ↔ ((i : ℕ) → i < 128 → exists s i ≡ false)
is_empty_iff s ws = (
  λ h i hi. unfold is_empty in ground (arith, exists_bit s i hi, bit_zero (i % 64)),
  λ none_in.
      let words =
        BitmapSet_ext s (clear s) ws (clear-IsWords s)
          (λ i hi. none_in i hi ∙ sym (exists-clear s i)) in
      unfold is_empty clear in ground (arith, words),
)

is_full_iff :
    (s : BitmapSet) → IsWords s → (is_full s ≡ true) ↔ ((i : ℕ) → i < 128 → exists s i ≡ true)
is_full_iff s ws = (
  λ h i hi.
      unfold is_full in
      ground (
        arith,
        exists_bit s i hi,
        bit_complement 64 (i % 64) 0 (omega arith) (omega arith),
        bit_zero (i % 64),
      ),
  λ all_in.
      let words =
        BitmapSet_ext s (fill s) ws (fill-IsWords s)
          (λ i hi. ground (arith, all_in i hi, exists-fill s i)) in
      unfold is_full fill in ground (arith, words),
)

-- The tests decide what they ask: the comparison says yes exactly to sets that have the same
-- members, the other two to a set with no member and to the set of all indexes below 128.
pub tests_iff :
    (s t : BitmapSet)
    → IsWords s
    → IsWords t
    → ((equals s t ≡ true) ↔ ((i : ℕ) → i < 128 → exists s i ≡ exists t i))
      × ((is_empty s ≡ true) ↔ ((i : ℕ) → i < 128 → exists s i ≡ false))
      × ((is_full s ≡ true) ↔ ((i : ℕ) → i < 128 → exists s i ≡ true))
tests_iff s t ws wt = (equals_iff s t ws wt, is_empty_iff s ws, is_full_iff s ws)
