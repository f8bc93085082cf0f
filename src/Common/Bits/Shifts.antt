-- ===== src/Common/Bits/Shifts.antt =====
-- Shifts, bit by bit, and the bits of a word as a sequence, the highest first.
use Prim.Native.Nat.{ℕ, zero, suc, ◌+◌, ◌*◌, ◌/◌, ◌%◌, ◌^◌, ◌<◌}
use mathlib.Core.Path.{◌≡◌, refl, sym, ap, ◌∙◌}
use mathlib.Core.Bool.{Bool, false}
use mathlib.Core.List.{List, [], ◌∷◌, ◌++◌}
use native.Mathlib.Omega.{arith}
use native.Mathlib.Nat.{pow-suc, div-div-eq-div-mul}
use libhpack.Common.Lists.{length}
use libhpack.Common.Bits.Member.{bit}
use mathlib.Core.Path.{ap₂}

-- `a >> s`
pub bit_shr : (s k j a : ℕ) → j ≡ s + k → bit (a / 2 ^ s) k ≡ bit a j
bit_shr zero k j a e =
    let e1 : a / 2 ^ 0 ≡ a = omega arith in let e2 : k ≡ j = omega arith in rw (e1, e2)
bit_shr (suc s) k zero a e = absurd (omega arith)
bit_shr (suc s) k (suc j) a e =
    let p : 2 ^ suc s ≡ 2 * 2 ^ s = omega (arith, pow-suc 2 s) in
    ap (λ d. bit (a / d) k) p
    ∙ ap (λ w. bit w k) (sym (div-div-eq-div-mul a 2 (2 ^ s)))
    ∙ bit_shr s k j (a / 2) (omega arith)

-- `a << s`
pub bit_shl : (s k j a : ℕ) → k ≡ s + j → bit (a * 2 ^ s) k ≡ bit a j
bit_shl zero k j a e =
    let e1 : a * 2 ^ 0 ≡ a = omega arith in let e2 : k ≡ j = omega arith in rw (e1, e2)
bit_shl (suc s) zero j a e = absurd (omega arith)
bit_shl (suc s) (suc k) j a e =
    ap (λ w. bit w k) (omega (arith, ap (λ (t : ℕ). a * t) (pow-suc 2 s)))
    ∙ bit_shl s k j a (omega arith)

pub bit_shl_low : (s k a : ℕ) → k < s → bit (a * 2 ^ s) k ≡ false
bit_shl_low zero k a h = absurd (omega arith)
bit_shl_low (suc s) zero a h = ground (arith, ap (λ (t : ℕ). a * t) (pow-suc 2 s))
bit_shl_low (suc s) (suc k) a h =
    ap (λ w. bit w k) (omega (arith, ap (λ (t : ℕ). a * t) (pow-suc 2 s)))
    ∙ bit_shl_low s k a (omega arith)

-- What a byte keeps.
pub bit_byte : (k a : ℕ) → k < 8 → bit (a % 256) k ≡ bit a k
bit_byte zero a h = ground arith
bit_byte (suc zero) a h = ground arith
bit_byte (suc (suc zero)) a h = ground arith
bit_byte (suc (suc (suc zero))) a h = ground arith
bit_byte (suc (suc (suc (suc zero)))) a h = ground arith
bit_byte (suc (suc (suc (suc (suc zero))))) a h = ground arith
bit_byte (suc (suc (suc (suc (suc (suc zero)))))) a h = ground arith
bit_byte (suc (suc (suc (suc (suc (suc (suc zero))))))) a h = ground arith
bit_byte (suc (suc (suc (suc (suc (suc (suc (suc k)))))))) a h = absurd (omega arith)

-- The `w` low bits of `v`.
abbrev pub bits : ℕ → ℕ → List Bool
bits zero v = []
bits (suc w) v = bit v w ∷ bits w v

pub length-bits : (w v : ℕ) → length (bits w v) ≡ w
length-bits zero v = refl
length-bits (suc w) v = ap suc (length-bits w v)

pub bits_eq : (w a b : ℕ) → ((k : ℕ) → k < w → bit a k ≡ bit b k) → bits w a ≡ bits w b
bits_eq zero a b h = refl
bits_eq (suc w) a b h = ap₂ ◌∷◌ (h w (omega arith)) (bits_eq w a b (λ k hk. h k (omega arith)))

-- The high bits, then the low ones.
pub bits_split : (m n w v : ℕ) → w ≡ m + n → bits w v ≡ bits m (v / 2 ^ n) ++ bits n v
bits_split zero n w v e = let e' : w ≡ n = omega arith in rw e'
bits_split (suc m) n zero v e = absurd (omega arith)
bits_split (suc m) n (suc w) v e =
    ap₂ ◌∷◌ (sym (bit_shr n m w v (omega arith))) (bits_split m n w v (omega arith))
