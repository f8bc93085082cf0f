-- ===== src/BitmapSet/Search.antt =====
-- A plain search for the next member of a set, with which the iterator is compared.
use libhpack.Common.{ℕ, zero, suc, ◌+◌, ◌≤◌, ◌<◌, ◌≡◌, ◌⊎◌, inl, inr, arith, Bool-cases}
use libhpack.Common.{true, false, Option, none, some, if◌then◌else◌}
use libhpack.BitmapSet.{BitmapSet, exists}

-- The first member among the `n` indexes from `i` on.
unfoldable pub first_from : ℕ → BitmapSet → ℕ → Option ℕ
first_from zero s i = none
first_from (suc n) s i = let rest = first_from n s (i + 1) in if exists s i then some i else rest

-- What a search among the `n` indexes from `i` on may answer.
abbrev pub IsLeast : ℕ → BitmapSet → ℕ → Option ℕ → Type 0
IsLeast n s i none = (j : ℕ) → i ≤ j → j < i + n → exists s j ≡ false
IsLeast n s i (some f) =
    (exists s f ≡ true) × (i ≤ f) × (f < i + n) × ((j : ℕ) → i ≤ j → j < f → exists s j ≡ false)

-- The search answers with the least member in its range, and with nothing only where there is none.
pub first_from-IsLeast : (n : ℕ) (s : BitmapSet) (i : ℕ) → IsLeast n s i (first_from n s i)
unfolding first_from
first_from-IsLeast zero s i = λ j p q. absurd (omega arith)
first_from-IsLeast (suc n) s i = elim (Bool-cases (exists s i)) [
  | inl here ↦ rw here (here, omega arith, omega arith, λ j p q. absurd (omega arith))
  | inr away ↦ rw away (widen (first_from n s (i + 1)) away (first_from-IsLeast n s (i + 1)))
]
  where
    skip : exists s i ≡ false → (j : ℕ) → i ≤ j → (j ≡ i) ⊎ (i + 1 ≤ j)
    skip away j p = grind arith

    widen : (o : Option ℕ) → exists s i ≡ false → IsLeast n s (i + 1) o → IsLeast (suc n) s i o
    widen none away h =
        λ j p q. elim (skip away j p) [ inl e ↦ rw e away | inr p' ↦ h j p' (omega arith) ]
    widen (some f) away (here, lo, hi, least) = (
      here,
      omega arith,
      omega arith,
      λ j p q. elim (skip away j p) [ inl e ↦ rw e away | inr p' ↦ least j p' q ],
    )
