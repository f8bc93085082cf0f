-- ===== src/Common/Bits/Member.antt =====
-- The bits of a word, one by one.
use Prim.Native.Nat.{ℕ, zero, suc, ◌-◌, ◌/◌, ◌%◌, ◌^◌, ◌≤◌, ◌<◌, bit_and, bit_or}
use mathlib.Core.Path.{◌≡◌, refl, ap, ◌∙◌}
use mathlib.Core.Bool.{Bool, false, not, ◌&&◌, ◌||◌}
use native.Mathlib.Omega.{arith}
use native.Mathlib.Nat.{pow-suc}
use libhpack.Common.Tests.{◌==◌, if◌then◌else◌}
use libhpack.Common.Bits.Digits.{bit_and_halves, bit_or_halves}
use libhpack.Common.Bits.Mask.{bit_and-zero}

-- Bit `i` of `w`, the lowest being bit 0.
abbrev pub bit : ℕ → ℕ → Bool
bit w zero = w % 2 == 1
bit w (suc i) = bit (w / 2) i

pub bit-bit_and : (i a b : ℕ) → bit (bit_and a b) i ≡ (bit a i && bit b i)
bit-bit_and zero a b = ground (arith, bit_and_halves a b)
bit-bit_and (suc i) a b =
    ap (λ w. bit w i) (omega (arith, bit_and_halves a b)) ∙ bit-bit_and i (a / 2) (b / 2)

pub bit-bit_or : (i a b : ℕ) → bit (bit_or a b) i ≡ (bit a i || bit b i)
bit-bit_or zero a b = ground (arith, bit_or_halves a b)
bit-bit_or (suc i) a b =
    ap (λ w. bit w i) (omega (arith, bit_or_halves a b)) ∙ bit-bit_or i (a / 2) (b / 2)

pub bit_zero : (i : ℕ) → bit 0 i ≡ false
bit_zero zero = refl
bit_zero (suc i) = bit_zero i

-- `1 << k` has bit `k` alone.
pub bit_pow : (k i : ℕ) → bit (2 ^ k) i ≡ (i == k)
bit_pow zero zero = refl
bit_pow zero (suc i) = bit_zero i ∙ ground arith
bit_pow (suc k) zero = ground (arith, pow-suc 2 k)
bit_pow (suc k) (suc i) =
    ap (λ w. bit w i) (omega (arith, pow-suc 2 k)) ∙ bit_pow k i ∙ ground arith

-- The complement within `n` bits.
pub bit_complement : (n i w : ℕ) → w < 2 ^ n → i < n → bit (2 ^ n - 1 - w) i ≡ not (bit w i)
bit_complement zero i w h hi = absurd (omega arith)
bit_complement (suc n) zero w h hi = ground (arith, pow-suc 2 n)
bit_complement (suc n) (suc i) w h hi =
    ap (λ v. bit v i) (omega (arith, pow-suc 2 n))
    ∙ bit_complement n i (w / 2) (omega (arith, pow-suc 2 n)) (omega arith)

-- Words of `n` bits with the same bits are equal.
pub eq_of_bits : (n a b : ℕ) → a < 2 ^ n → b < 2 ^ n → ((i : ℕ) → i < n → bit a i ≡ bit b i) → a ≡ b
eq_of_bits zero a b ha hb h = omega arith
eq_of_bits (suc n) a b ha hb h = ground (
  arith,
  h 0,
  eq_of_bits n (a / 2) (b / 2) (omega (arith, pow-suc 2 n)) (omega (arith, pow-suc 2 n))
      (λ i hi. h (suc i) (omega arith)),
)

-- `w & (1 << k)` is `1 << k` or nothing.
pub bit_and-pow : (k w : ℕ) → bit_and w (2 ^ k) ≡ (if bit w k then 2 ^ k else 0)
bit_and-pow zero w = ground (arith, bit_and_halves w 1, bit_and-zero (w / 2))
bit_and-pow (suc k) w =
    ground (arith, pow-suc 2 k, bit_and_halves w (2 ^ suc k), bit_and-pow k (w / 2))

-- A word has no bit beyond its size.
pub bit_above : (n i w : ℕ) → w < 2 ^ n → n ≤ i → bit w i ≡ false
bit_above zero i w h hi = ap (λ v. bit v i) (omega arith) ∙ bit_zero i
bit_above (suc n) zero w h hi = absurd (omega arith)
bit_above (suc n) (suc i) w h hi = bit_above n i (w / 2) (omega (arith, pow-suc 2 n)) (omega arith)
