-- ===== src/Common/Run.antt =====
-- Runs of code that may do what C leaves undefined, or go on for ever.
use mathlib.Core.Bool.{Bool, true, false}
use mathlib.Core.Path.{◌≡◌, refl, ap, ◌∙◌}
use mathlib.Core.Option.{Option, none, some}
use libhpack.Common.Tests.{if◌then◌else◌}

-- `done` is a return; `fault` an access outside an array; `stuck` a loop that has used up the
-- rounds that the model gives it.
pub data Run {ℓ} (A : Type ℓ) : Type ℓ where
  done : A → Run A
  fault : Run A
  stuck : Run A

infixl 5 ◌>>=◌
abbrev pub ◌>>=◌ {ℓ κ} : {A : Type ℓ} {B : Type κ} → Run A → (A → Run B) → Run B
done a >>= f = f a
fault >>= f = fault
stuck >>= f = stuck

-- `none` is a fault.
abbrev pub checked {ℓ} : {A : Type ℓ} → Option A → Run A
checked none = fault
checked (some a) = done a

-- A run that returns.
abbrev pub IsDone {ℓ} : {A : Type ℓ} → Run A → Type ℓ
IsDone {A} m = (a : A) × (m ≡ done a)

pub if-IsDone {ℓ} :
    {A : Type ℓ} (c : Bool) {x y : Run A}
    → (c ≡ true → IsDone x)
    → (c ≡ false → IsDone y)
    → IsDone (if c then x else y)
if-IsDone true hx hy = hx refl
if-IsDone false hx hy = hy refl

pub bind-IsDone {ℓ κ} :
    {A : Type ℓ} {B : Type κ} {m : Run A} {f : A → Run B}
    → IsDone m
    → ((a : A) → m ≡ done a → IsDone (f a))
    → IsDone (m >>= f)
bind-IsDone {f} (a, e) h = let (b, e') = h a e in (b, ap (λ m. m >>= f) e ∙ e')
