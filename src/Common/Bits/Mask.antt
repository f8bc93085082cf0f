-- ===== src/Common/Bits/Mask.antt =====
-- Masks as remainders, and `|` of disjoint fields as a sum.
use Prim.Native.Nat.{
  ℕ, zero, suc, ◌+◌, ◌-◌, ◌*◌, ◌/◌, ◌%◌, ◌^◌, ◌≤◌, ◌<◌, bit_and, bit_or, bit_xor, bit_and-bitwise,
  differ,
}
use mathlib.Core.Path.{◌≡◌, refl, ap}
use native.Mathlib.Omega.{arith}
use native.Mathlib.Nat.{pow-suc, one-le-pow, div-add-mod}
use libhpack.Common.Bits.Digits.{bit_and_halves, bit_or_halves, bit_xor_halves}

bit_and-zero_below : (k a : ℕ) → a ≤ k → bit_and a 0 ≡ 0
bit_and-zero_below k zero h = refl
bit_and-zero_below zero (suc a) h = absurd (omega arith)
bit_and-zero_below (suc k) (suc a) h =
    omega (arith, bit_and_halves (suc a) 0, bit_and-zero_below k (suc a / 2) (omega arith))

pub bit_and-zero : (a : ℕ) → bit_and a 0 ≡ 0
bit_and-zero a = bit_and-zero_below a a (omega arith)

bit_or-zero_below : (k a : ℕ) → a ≤ k → bit_or a 0 ≡ a
bit_or-zero_below k zero h = refl
bit_or-zero_below zero (suc a) h = absurd (omega arith)
bit_or-zero_below (suc k) (suc a) h =
    omega (arith, bit_or_halves (suc a) 0, bit_or-zero_below k (suc a / 2) (omega arith))

pub bit_or-zero : (a : ℕ) → bit_or a 0 ≡ a
bit_or-zero a = bit_or-zero_below a a (omega arith)

-- `2 ^ suc k` for `omega`: the power and its double.
mul-pow-suc : (q k : ℕ) → q * 2 ^ suc k ≡ q * 2 ^ k * 2
mul-pow-suc q k = omega (arith, ap (λ (t : ℕ). q * t) (pow-suc 2 k))

-- A mask of `k` ones keeps the low field.
bit_and_low_field : (k q r : ℕ) → r < 2 ^ k → bit_and (q * 2 ^ k + r) (2 ^ k - 1) ≡ r
bit_and_low_field zero q r h = rw bit_and-zero (omega arith)
bit_and_low_field (suc k) q r h = ground (
  arith,
  pow-suc 2 k,
  mul-pow-suc q k,
  bit_and_halves (q * 2 ^ suc k + r) (2 ^ suc k - 1),
  bit_and_low_field k q (r / 2) (omega (arith, pow-suc 2 k)),
  one-le-pow k 2,
)

pub bit_and_low : (k a : ℕ) → bit_and a (2 ^ k - 1) ≡ a % 2 ^ k
bit_and_low k a =
    ground
      (arith, one-le-pow k 2, div-add-mod a (2 ^ k), bit_and_low_field k (a / 2 ^ k) (a % 2 ^ k))

-- Fields that share no bit.
pub bit_or_disjoint : (k q r : ℕ) → r < 2 ^ k → bit_or (q * 2 ^ k) r ≡ q * 2 ^ k + r
bit_or_disjoint zero q r h = ground (arith, bit_or-zero q)
bit_or_disjoint (suc k) q r h = ground (
  arith,
  pow-suc 2 k,
  mul-pow-suc q k,
  bit_or_halves (q * 2 ^ suc k) r,
  bit_or_disjoint k q (r / 2) (omega (arith, pow-suc 2 k)),
)

-- `^` tells words apart.
xor_below : (k a b : ℕ) → a ≤ k → b ≤ k → bit_xor a b ≡ 0 → a ≡ b
xor_below zero a b ha hb h = omega arith
xor_below (suc k) a b ha hb h =
    ground (arith, bit_xor_halves a b, xor_below k (a / 2) (b / 2) (omega arith) (omega arith))

pub bit_xor-zero→ : (a b : ℕ) → bit_xor a b ≡ 0 → a ≡ b
bit_xor-zero→ a b h = xor_below (a + b) a b (omega arith) (omega arith) h

differ_self : (d : ℕ) → differ d d ≡ 0
differ_self zero = refl
differ_self (suc d) = differ_self d

xor_self_below : (k a : ℕ) → a ≤ k → bit_xor a a ≡ 0
xor_self_below zero zero h = refl
xor_self_below zero (suc a) h = absurd (omega arith)
xor_self_below (suc k) a h =
    ground (arith, bit_xor_halves a a, differ_self (a % 2), xor_self_below k (a / 2) (omega arith))

pub bit_xor_self : (a : ℕ) → bit_xor a a ≡ 0
bit_xor_self a = xor_self_below a a (omega arith)

-- The operations stay within the words.
pub bit_or_lt : (n a b : ℕ) → a < 2 ^ n → b < 2 ^ n → bit_or a b < 2 ^ n
bit_or_lt zero a b ha hb =
    let ea : a ≡ 0 = omega arith in let eb : b ≡ 0 = omega arith in rw (ea, eb) (omega arith)
bit_or_lt (suc n) a b ha hb = ground (
  arith,
  pow-suc 2 n,
  bit_or_halves a b,
  bit_or_lt n (a / 2) (b / 2) (omega (arith, pow-suc 2 n)) (omega (arith, pow-suc 2 n)),
)

and_below : (k a b : ℕ) → a ≤ k → bit_and a b ≤ a
and_below k zero b h = ground (arith, bit_and-zero-left b)
  where
    bit_and-zero-left : (b : ℕ) → bit_and 0 b ≡ 0
    bit_and-zero-left b = bit_and-bitwise 0 b
and_below zero (suc a) b h = absurd (omega arith)
and_below (suc k) (suc a) b h =
    ground (arith, bit_and_halves (suc a) b, and_below k (suc a / 2) (b / 2) (omega arith))

pub bit_and-le : (a b : ℕ) → bit_and a b ≤ a
bit_and-le a b = and_below a a b (omega arith)
