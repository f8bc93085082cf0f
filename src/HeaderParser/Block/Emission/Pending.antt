-- ===== src/HeaderParser/Block/Emission/Pending.antt =====
-- The fields at the positions of a set, in the order of the positions.
use libhpack.Common.{ℕ, zero, suc, ◌+◌, ◌-◌, ◌%◌, ◌≤◌, ◌<◌, ◌≡◌, ◌∙◌, refl, ap, arith, some, none}
use libhpack.Common.{List, [], ◌∷◌, true, false, get_elem?}
use libhpack.Common.{if◌then◌else◌}
use libhpack.BitmapSet
use libhpack.BitmapSet.{BitmapSet}
use libhpack.BitmapSet.Member.{exists-remove}
use libhpack.HeaderField.{Field}

-- The field at a place, if there is one, before others.
abbrev cons_at : List Field → ℕ → List Field → List Field
cons_at fs k rest = elim (get_elem? fs k) [ none ↦ rest | some f ↦ f ∷ rest ]

-- The fields at the members of a set among the `n` positions from `i` on, the head of the ring
-- being `o`.
abbrev pub fields_at : ℕ → BitmapSet → ℕ → List Field → ℕ → List Field
fields_at zero s o fs i = []
fields_at (suc n) s o fs i =
    let rest = fields_at n s o fs (i + 1) in
    if BitmapSet.exists s i then cons_at fs ((i + 128 - o) % 128) rest else rest

pub fields_at-none :
    (n : ℕ) (s : BitmapSet) (o : ℕ) (fs : List Field) (i : ℕ)
    → ((j : ℕ) → i ≤ j → j < i + n → BitmapSet.exists s j ≡ false)
    → fields_at n s o fs i ≡ []
fields_at-none zero s o fs i none_there = refl
fields_at-none (suc n) s o fs i none_there =
    rw (none_there i (omega arith) (omega arith))
      (fields_at-none n s o fs (i + 1) (λ j p q. none_there j (omega arith) (omega arith)))

fields_at-skip :
    (m n d : ℕ) (s : BitmapSet) (o : ℕ) (fs : List Field) (i : ℕ)
    → m ≡ d + n
    → ((j : ℕ) → i ≤ j → j < i + d → BitmapSet.exists s j ≡ false)
    → fields_at m s o fs i ≡ fields_at n s o fs (i + d)
fields_at-skip m n zero s o fs i e none_there =
    let size : m ≡ n = omega arith in
    let place : i ≡ i + 0 = omega arith in
    ap (λ x. fields_at x s o fs i) size ∙ ap (fields_at n s o fs) place
fields_at-skip zero n (suc d) s o fs i e none_there = absurd (omega arith)
fields_at-skip (suc m) n (suc d) s o fs i e none_there =
    let place : i + 1 + d ≡ i + suc d = omega arith in
    rw (none_there i (omega arith) (omega arith)) (
      fields_at-skip m n d s o fs (i + 1) (omega arith)
        (λ j p q. none_there j (omega arith) (omega arith))
      ∙ ap (fields_at n s o fs) place)

fields_at-same :
    (n : ℕ) (s t : BitmapSet) (o : ℕ) (fs : List Field) (i : ℕ)
    → ((j : ℕ) → i ≤ j → BitmapSet.exists t j ≡ BitmapSet.exists s j)
    → fields_at n t o fs i ≡ fields_at n s o fs i
fields_at-same zero s t o fs i same = refl
fields_at-same (suc n) s t o fs i same =
    rw (same i (omega arith), fields_at-same n s t o fs (i + 1) (λ j p. same j (omega arith)))

-- The least member comes first.
pub fields_at-least :
    (s : BitmapSet) (o : ℕ) (fs : List Field) (p i : ℕ) (f : Field)
    → p ≤ i
    → i < 128
    → BitmapSet.exists s i ≡ true
    → ((j : ℕ) → p ≤ j → j < i → BitmapSet.exists s j ≡ false)
    → get_elem? fs ((i + 128 - o) % 128) ≡ some f
    → fields_at (128 - p) s o fs p
      ≡ f ∷ fields_at (128 - (i + 1)) (BitmapSet.remove s i).1 o fs (i + 1)
fields_at-least s o fs p i f low high there least e =
    let at_i : p + (i - p) ≡ i = omega arith in
    let gone =
      fields_at-same (128 - (i + 1)) s (BitmapSet.remove s i).1 o fs (i + 1)
        (λ j q. let (_, m) = exists-remove s i j in ground arith) in
    fields_at-skip (128 - p) (suc (128 - (i + 1))) (i - p) s o fs p (omega arith)
      (λ j q r. least j q (omega arith))
    ∙ ap (fields_at (suc (128 - (i + 1))) s o fs) at_i
    ∙ rw (there, cons_at, e, gone)
