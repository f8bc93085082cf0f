-- ===== src/BitmapSet/Tests.antt =====
-- Runs of the set operations, and the theorems at concrete sets.
use libhpack.Common.{ℕ, ◌+◌, ◌-◌, ◌^◌, ◌<◌, ◌≡◌, ◌↔◌, refl, arith, ltb, if◌then◌else◌}
use libhpack.Common.{true, false, not, ◌&&◌, ◌||◌, some}
use libhpack.Common.Ret.{ok}
use libhpack.BitmapSet.{
  BitmapSet, add, remove, exists, clear, fill, union, intersection, clone, relative_comp,
  complement, is_empty, is_full, equals, next,
}
use libhpack.BitmapSet.Member.{IsWords}
use libhpack.BitmapSet.Algebra.{algebra_members}
use libhpack.BitmapSet.Compare.{tests_iff}
use libhpack.BitmapSet.Search.{first_from, IsLeast}
use libhpack.BitmapSet.Next.{standing, position, after, next-IsLeast, next_skips}

-- Indexes 3 and 40 in the first word, and 64 in the second.
abbrev few : BitmapSet
few = record { entry0 = 2 ^ 40 + 8; entry1 = 1 }

abbrev three : BitmapSet
three = record { entry0 = 8; entry1 = 0 }

few-IsWords : IsWords few
few-IsWords = omega arith

three-IsWords : IsWords three
three-IsWords = omega arith

-- The shift as compilers for 64-bit machines mostly make it: the result of an `int`, widened with
-- its sign.
abbrev shl_wrapped : ℕ → ℕ
shl_wrapped b = if ltb b 31 then 2 ^ b else 2 ^ 64 - 2 ^ 31

next_three : next shl_wrapped few (standing 0 0) ≡ (standing 0 4, some 3)
unfolding next
next_three = refl

-- After index 30 the iterator stands at bit 31, and misses index 40.
next_misses :
    (next shl_wrapped (record { entry0 = 2 ^ 40 + 2 ^ 30; entry1 = 1 }) (standing 0 31)).1 ≡ some 64
unfolding next
next_misses = refl

algebra_members_example :
    ((add few 5).0 ≡ ok)
    × (exists (add few 5).1 40 ≡ (exists few 40 || false))
    × ((remove few 5).0 ≡ ok)
    × (exists (remove few 5).1 40 ≡ (exists few 40 && true))
    × (exists (union few three) 40 ≡ (exists few 40 || exists three 40))
    × (exists (intersection few three) 40 ≡ (exists few 40 && exists three 40))
    × (exists (relative_comp few three) 40 ≡ (exists few 40 && not (exists three 40)))
    × (exists (complement few) 40 ≡ (true && not (exists few 40)))
    × (exists (clear few) 40 ≡ false)
    × (exists (fill few) 40 ≡ true)
    × (exists (clone few three) 40 ≡ exists three 40)
algebra_members_example = algebra_members few three 5 40 few-IsWords three-IsWords

tests_iff_example :
    ((equals few three ≡ true) ↔ ((i : ℕ) → i < 128 → exists few i ≡ exists three i))
    × ((is_empty few ≡ true) ↔ ((i : ℕ) → i < 128 → exists few i ≡ false))
    × ((is_full few ≡ true) ↔ ((i : ℕ) → i < 128 → exists few i ≡ true))
tests_iff_example = tests_iff few three few-IsWords three-IsWords

next-IsLeast_example :
    let (it, found) = next shl_wrapped few (standing 0 4) in
    IsLeast 124 few 4 found × (position it ≡ after 128 found)
next-IsLeast_example =
    next-IsLeast shl_wrapped few (standing 0 4) refl refl (omega arith) (omega arith)

next_skips_example :
    (next shl_wrapped (record { entry0 = 2 ^ 40 + 2 ^ 30; entry1 = 1 }) (standing 0 31)).1
    ≡ first_from 64 (record { entry0 = 2 ^ 40 + 2 ^ 30; entry1 = 1 }) 64
next_skips_example = next_skips shl_wrapped _ refl refl (unfold exists in refl)
