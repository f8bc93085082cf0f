-- ===== src/BitmapSet/Algebra.antt =====
-- The operations on whole sets, read as operations on their members.
use libhpack.Common.{ℕ, ◌-◌, ◌/◌, ◌%◌, ◌<◌}
use libhpack.Common.{◌≡◌, inl, inr, arith, Bool-cases, ltb}
use libhpack.Common.Ret.{ok, error}
use libhpack.Common.{if◌then◌else◌, ◌==◌}
use libhpack.Common.{false, not, ◌&&◌, ◌||◌}
use libhpack.Common.{bit_zero, bit-bit_and, bit-bit_or, bit_complement}
use libhpack.BitmapSet.{
  BitmapSet, entry, add, remove, exists, all_ones, clear, fill, union, relative_comp, intersection,
  complement, clone,
}
use libhpack.BitmapSet.Member.{IsWords, exists_bit, exists_outside, exists-add, exists-remove}

-- A claim about all indexes, from the indexes below 128: no other is in any set.
module _ (s t : BitmapSet) (j : ℕ) where
  exists-union_below : j < 128 → exists (union s t) j ≡ (exists s j || exists t j)
  unfolding union
  exists-union_below h = ground (
    arith,
    exists_bit (union s t) j,
    exists_bit s j,
    exists_bit t j,
    bit-bit_or (j % 64) (entry s (j / 64)) (entry t (j / 64)),
  )

  pub exists-union : exists (union s t) j ≡ (exists s j || exists t j)
  exists-union = elim (Bool-cases (ltb j 128)) [
    | inl below ↦ exists-union_below (ground arith)
    | inr above ↦
        ground (arith, exists_outside s j, exists_outside t j, exists_outside (union s t) j)
  ]

  exists-intersection_below : j < 128 → exists (intersection s t) j ≡ (exists s j && exists t j)
  unfolding intersection
  exists-intersection_below h = ground (
    arith,
    exists_bit (intersection s t) j,
    exists_bit s j,
    exists_bit t j,
    bit-bit_and (j % 64) (entry s (j / 64)) (entry t (j / 64)),
  )

  pub exists-intersection : exists (intersection s t) j ≡ (exists s j && exists t j)
  exists-intersection = elim (Bool-cases (ltb j 128)) [
    | inl below ↦ exists-intersection_below (ground arith)
    | inr above ↦
        ground (arith, exists_outside s j, exists_outside t j, exists_outside (intersection s t) j)
  ]

  exists-relative_comp_below :
      IsWords t → j < 128 → exists (relative_comp s t) j ≡ (exists s j && not (exists t j))
  unfolding relative_comp
  exists-relative_comp_below w h = ground (
    arith,
    exists_bit (relative_comp s t) j,
    exists_bit s j,
    exists_bit t j,
    bit-bit_and (j % 64) (entry s (j / 64)) (all_ones - entry t (j / 64)),
    bit_complement 64 (j % 64) (entry t (j / 64)) (ground arith) (omega arith),
  )

  -- The relative complement has the members of the first set that the second has not.
  pub exists-relative_comp :
      IsWords t → exists (relative_comp s t) j ≡ (exists s j && not (exists t j))
  exists-relative_comp w = elim (Bool-cases (ltb j 128)) [
    | inl below ↦ exists-relative_comp_below w (ground arith)
    | inr above ↦ ground (arith, exists_outside s j, exists_outside (relative_comp s t) j)
  ]

  pub exists-clone : exists (clone s t) j ≡ exists t j
  unfolding clone exists
  exists-clone = ground arith

module _ (s : BitmapSet) (j : ℕ) where
  exists-complement_below : IsWords s → j < 128 → exists (complement s) j ≡ not (exists s j)
  unfolding complement
  exists-complement_below w h = ground (
    arith,
    exists_bit (complement s) j,
    exists_bit s j,
    bit_complement 64 (j % 64) (entry s (j / 64)) (ground arith) (omega arith),
  )

  pub exists-complement : IsWords s → exists (complement s) j ≡ (ltb j 128 && not (exists s j))
  exists-complement w = elim (Bool-cases (ltb j 128)) [
    | inl below ↦ ground (arith, exists-complement_below w (ground arith))
    | inr above ↦ ground (arith, exists_outside (complement s) j)
  ]

  pub exists-clear : exists (clear s) j ≡ false
  exists-clear = elim (Bool-cases (ltb j 128)) [
    | inl below ↦ unfold clear in ground (arith, exists_bit (clear s) j, bit_zero (j % 64))
    | inr above ↦ exists_outside (clear s) j (ground arith)
  ]

  pub exists-fill : exists (fill s) j ≡ ltb j 128
  exists-fill = elim (Bool-cases (ltb j 128)) [
    | inl below ↦
        unfold fill in
        ground (
          arith,
          exists_bit (fill s) j,
          bit_complement 64 (j % 64) 0 (omega arith) (omega arith),
          bit_zero (j % 64),
        )
    | inr above ↦ ground (arith, exists_outside (fill s) j)
  ]

-- The operations on sets of words are those of set algebra on their members: one index added or
-- taken out, where it is below 128 and an error that changes nothing otherwise, union, intersection,
-- relative complement, complement within the indexes below 128, the empty and the full set, and the
-- copy.
pub algebra_members :
    (s t : BitmapSet) (i j : ℕ)
    → IsWords s
    → IsWords t
    → ((add s i).0 ≡ (if ltb i 128 then ok else error))
      × (exists (add s i).1 j ≡ (exists s j || ((i == j) && ltb i 128)))
      × ((remove s i).0 ≡ (if ltb i 128 then ok else error))
      × (exists (remove s i).1 j ≡ (exists s j && not ((i == j) && ltb i 128)))
      × (exists (union s t) j ≡ (exists s j || exists t j))
      × (exists (intersection s t) j ≡ (exists s j && exists t j))
      × (exists (relative_comp s t) j ≡ (exists s j && not (exists t j)))
      × (exists (complement s) j ≡ (ltb j 128 && not (exists s j)))
      × (exists (clear s) j ≡ false)
      × (exists (fill s) j ≡ ltb j 128)
      × (exists (clone s t) j ≡ exists t j)
algebra_members s t i j ws wt = (
  (exists-add s i j).0,
  (exists-add s i j).1,
  (exists-remove s i j).0,
  (exists-remove s i j).1,
  exists-union s t j,
  exists-intersection s t j,
  exists-relative_comp s t j wt,
  exists-complement s j ws,
  exists-clear s j,
  exists-fill s j,
  exists-clone s t j,
)
