-- ===== src/BitmapSet/Member.antt =====
-- Membership in a bitmap set, and what adding and removing one index does to it.
use libhpack.Common.{ℕ, ◌-◌, ◌/◌, ◌%◌, ◌^◌, ◌≤◌, ◌<◌, bit_and, bit_or}
use libhpack.Common.{◌≡◌, inl, inr, arith, Bool-cases, ltb, ◌==◌, if◌then◌else◌}
use libhpack.Common.{false, not, ◌&&◌, ◌||◌}
use libhpack.Common.{
  bit, bit-bit_and, bit-bit_or, bit_pow, bit_and-pow, bit_and_low, bit_complement,
}
use libhpack.Common.Ret.{ok, error}
use libhpack.BitmapSet.{BitmapSet, entry, place, add, remove, exists, all_ones}
use native.Mathlib.Nat.{one-le-pow, pow-le-pow_right, mod-eq_of_lt}

-- The entries are words.
pub record IsWords (s : BitmapSet) : Type 0 where
  pub word0 : s.entry0 < 2 ^ 64
  pub word1 : s.entry1 < 2 ^ 64

pub pow-lt-word : (k : ℕ) → k < 64 → 2 ^ k < 2 ^ 64
pow-lt-word k h =
    omega (arith, pow-le-pow_right {n = 2} (omega arith) {i = k} {j = 63} (omega arith))

pub place_lem : (idx : ℕ) → place idx ≡ 2 ^ (idx % 64)
place_lem idx = rw (bit_and_low 6 idx) (mod-eq_of_lt (pow-lt-word (idx % 64) (omega arith)))

pub test_bit : (w k : ℕ) → not (bit_and w (2 ^ k) == 0) ≡ bit w k
test_bit w k = ground (arith, bit_and-pow k w, one-le-pow k 2)

-- An index below 128 is a member if its bit of its word is set.
pub exists_bit : (s : BitmapSet) (i : ℕ) → i < 128 → exists s i ≡ bit (entry s (i / 64)) (i % 64)
unfolding exists
exists_bit s i h = ground (arith, place_lem i, test_bit (entry s (i / 64)) (i % 64))

pub exists_outside : (s : BitmapSet) (i : ℕ) → 128 ≤ i → exists s i ≡ false
unfolding exists
exists_outside s i h = ground arith

-- The word and the bit of the index that an operation has changed, and of any other.
module _ (s : BitmapSet) (i j : ℕ) (hi : i < 128) (hj : j < 128) where
  entry-add :
      entry (add s i).1 (j / 64)
      ≡ (if i / 64 == j / 64 then bit_or (entry s (j / 64)) (2 ^ (i % 64)) else entry s (j / 64))
  unfolding add
  entry-add = ground (arith, place_lem i)

  entry-remove : entry (remove s i).1 (j / 64) ≡ (
      if i / 64 == j / 64
      then bit_and (entry s (j / 64)) (all_ones - 2 ^ (i % 64))
      else entry s (j / 64))
  unfolding remove
  entry-remove = ground (arith, place_lem i)

  exists-add_below : exists (add s i).1 j ≡ (exists s j || (i == j))
  exists-add_below = ground (
    arith,
    entry-add,
    exists_bit (add s i).1 j,
    exists_bit s j,
    bit-bit_or (j % 64) (entry s (j / 64)) (2 ^ (i % 64)),
    bit_pow (i % 64) (j % 64),
  )

  exists-remove_below : exists (remove s i).1 j ≡ (exists s j && not (i == j))
  exists-remove_below = ground (
    arith,
    entry-remove,
    exists_bit (remove s i).1 j,
    exists_bit s j,
    bit-bit_and (j % 64) (entry s (j / 64)) (all_ones - 2 ^ (i % 64)),
    bit_complement 64 (j % 64) (2 ^ (i % 64)) (pow-lt-word (i % 64) (omega arith)) (omega arith),
    bit_pow (i % 64) (j % 64),
  )

-- Adding an index below 128 succeeds and makes it a member, beside the members that there were;
-- any other index is refused with an error, and the set is as it was.
pub exists-add :
    (s : BitmapSet) (i j : ℕ)
    → ((add s i).0 ≡ (if ltb i 128 then ok else error))
      × (exists (add s i).1 j ≡ (exists s j || ((i == j) && ltb i 128)))
exists-add s i j = (
  unfold add in ground arith,
  elim (Bool-cases (ltb i 128)) [
    | inl inside ↦ elim (Bool-cases (ltb j 128)) [
      | inl below ↦ ground (arith, exists-add_below s i j)
      | inr above ↦ ground (arith, exists_outside s j, exists_outside (add s i).1 j)
    ]
    | inr outside ↦ unfold add in ground arith
  ],
)

-- Removing an index below 128 succeeds and leaves the other members; any other index is refused
-- with an error, and the set is as it was.
pub exists-remove :
    (s : BitmapSet) (i j : ℕ)
    → ((remove s i).0 ≡ (if ltb i 128 then ok else error))
      × (exists (remove s i).1 j ≡ (exists s j && not ((i == j) && ltb i 128)))
exists-remove s i j = (
  unfold remove in ground arith,
  elim (Bool-cases (ltb i 128)) [
    | inl inside ↦ elim (Bool-cases (ltb j 128)) [
      | inl below ↦ ground (arith, exists-remove_below s i j)
      | inr above ↦ ground (arith, exists_outside s j, exists_outside (remove s i).1 j)
    ]
    | inr outside ↦ unfold remove in ground arith
  ],
)
