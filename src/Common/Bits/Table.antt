-- ===== src/Common/Bits/Table.antt =====
-- Facts over a small range, checked by evaluation.
use Prim.Native.Nat.{ℕ, zero, suc, ◌-◌, ◌*◌, ◌/◌, ◌^◌, ◌≤◌, ◌<◌, bit_and}
use mathlib.Core.Path.{◌≡◌, refl}
use mathlib.Core.Bool.{Bool, true, ◌&&◌}
use native.Mathlib.Omega.{arith}
use libhpack.Common.Tests.{◌==◌, ==_iff}

-- The test holds of every number below another.
unfoldable pub holds_below : ℕ → (ℕ → Bool) → Bool
holds_below zero test = true
holds_below (suc n) test = test n && holds_below n test

holds_below→ : (n : ℕ) (test : ℕ → Bool) (x : ℕ) → holds_below n test ≡ true → x < n → test x ≡ true
unfolding holds_below
holds_below→ zero test x h hx = absurd (omega arith)
holds_below→ (suc n) test x h hx = ground (arith, holds_below→ n test x)

-- What a test by evaluation shows of a function of one number, or of two.
pub same_below :
    (n : ℕ) (f g : ℕ → ℕ) → holds_below n (λ x. f x == g x) ≡ true → (x : ℕ) → x < n → f x ≡ g x
same_below n f g h x hx = (==_iff _ _).0 (holds_below→ n (λ x. f x == g x) x h hx)

pub same_below_both :
    (m n : ℕ) (f g : ℕ → ℕ → ℕ)
    → holds_below m (λ x. holds_below n (λ y. f x y == g x y)) ≡ true
    → (x y : ℕ) → x < m
    → y < n
    → f x y ≡ g x y
same_below_both m n f g h x y hx hy =
    same_below n (f x) (g x) (holds_below→ m (λ x. holds_below n (λ y. f x y == g x y)) x h hx) y hy

high_table :
    holds_below 9 (λ k. holds_below 256 (λ b. bit_and b (255 - (2 ^ k - 1)) == b / 2 ^ k * 2 ^ k))
    ≡ true
unfolding holds_below
high_table = refl

-- Clearing the low `k` bits of a byte.
pub bit_and_high : (k b : ℕ) → k ≤ 8 → b < 256 → bit_and b (255 - (2 ^ k - 1)) ≡ b / 2 ^ k * 2 ^ k
bit_and_high k b hk hb =
    same_below_both 9 256 (λ k b. bit_and b (255 - (2 ^ k - 1))) (λ k b. b / 2 ^ k * 2 ^ k)
      high_table k b (omega arith) hb
