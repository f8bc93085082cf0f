-- ===== src/Common/Bits/Digits.antt =====
-- One binary digit of `&`, `|` and `^` at a time.
use Prim.Native.Nat.{ℕ, zero, suc, ◌+◌, ◌*◌, ◌/◌, ◌%◌, ◌≤◌, min, max, digits, differ}
use Prim.Native.Nat.{bit_and, bit_or, bit_xor, bit_and-bitwise, bit_or-bitwise, bit_xor-bitwise}
use mathlib.Core.Path.{◌≡◌, refl}
use native.Mathlib.Omega.{arith}

module _ (last : ℕ → ℕ) (join : ℕ → ℕ → ℕ) where
  -- The recursion on digits stops by itself: rounds beyond the number change nothing.
  rounds_agree : (k l a b : ℕ) → a ≤ k → a ≤ l → digits last join k a b ≡ digits last join l a b
  rounds_agree k l zero b h h' = at_zero k l
    where
      at_zero : (k l : ℕ) → digits last join k 0 b ≡ digits last join l 0 b
      at_zero zero zero = refl
      at_zero zero (suc l) = refl
      at_zero (suc k) zero = refl
      at_zero (suc k) (suc l) = refl
  rounds_agree zero l (suc a) b h h' = absurd (omega arith)
  rounds_agree (suc k) zero (suc a) b h h' = absurd (omega arith)
  rounds_agree (suc k) (suc l) (suc a) b h h' =
      rw (rounds_agree k l (suc a / 2) (b / 2) (omega arith) (omega arith))

  digit_split :
      (a b : ℕ)
      → digits last join (suc a) (suc a) b
        ≡ digits last join (suc a / 2) (suc a / 2) (b / 2) * 2 + join (suc a % 2) (b % 2)
  digit_split a b = rw (rounds_agree a (suc a / 2) (suc a / 2) (b / 2) (omega arith) (omega arith))

pub bit_and_halves : (a b : ℕ) → bit_and a b ≡ bit_and (a / 2) (b / 2) * 2 + min (a % 2) (b % 2)
bit_and_halves zero b = simp bit_and-bitwise (omega arith)
bit_and_halves (suc a) b = simp bit_and-bitwise (digit_split (λ d. zero) min a b)

pub bit_or_halves : (a b : ℕ) → bit_or a b ≡ bit_or (a / 2) (b / 2) * 2 + max (a % 2) (b % 2)
bit_or_halves zero b = simp bit_or-bitwise (omega arith)
bit_or_halves (suc a) b = simp bit_or-bitwise (digit_split (λ d. d) max a b)

pub bit_xor_halves : (a b : ℕ) → bit_xor a b ≡ bit_xor (a / 2) (b / 2) * 2 + differ (a % 2) (b % 2)
bit_xor_halves zero b = simp bit_xor-bitwise (ground arith)
bit_xor_halves (suc a) b = simp bit_xor-bitwise (digit_split (λ d. d) differ a b)
