-- ===== src/Integer/Vlq.antt =====
-- What the octets behind a full prefix mean, apart from the code: groups of seven bits, the lowest
-- first, the top bit set on every octet but the last.
use libhpack.Common.{ℕ, zero, suc, ◌+◌, ◌-◌, ◌*◌, ◌/◌, ◌%◌, ◌^◌, ◌≤◌, ◌<◌, ◌≡◌, arith}
use libhpack.Common.{List, [], ◌∷◌, Option, none, some, ltb, if◌then◌else◌, length, lt→ltb, refl}

-- The octets of `value`, for `value` below 128 ^ (k + 1).
unfoldable pub octets : ℕ → ℕ → List ℕ
octets zero value = value ∷ []
octets (suc k) value =
    let rest = octets k (value / 128) in
    if ltb value 128 then value ∷ [] else (128 + value % 128) ∷ rest

-- The number that the octets up to the first one below 128 stand for, and how many they are.
unfoldable pub number : List ℕ → Option (ℕ × ℕ)
number [] = none
number (b ∷ bs) =
    let rest : Option (ℕ × ℕ) = elim (number bs) [
      | none ↦ none
      | some (v, n) ↦ some (b % 128 + 128 * v, n + 1)
    ] in
    if ltb b 128 then some (b, 1) else rest

pub octets_small : (k value : ℕ) → value < 128 → octets k value ≡ value ∷ []
unfolding octets
octets_small zero value h = refl
octets_small (suc k) value h = rw (lt→ltb value 128 h)

pub octets_large :
    (k value : ℕ)
    → 128 ≤ value
    → octets (suc k) value ≡ (128 + value % 128) ∷ octets k (value / 128)
unfolding octets
octets_large k value h = ground arith

pub length-octets :
    (k value : ℕ) → (1 ≤ length (octets k value)) × (length (octets k value) ≤ k + 1)
unfolding octets
length-octets zero value = omega arith
length-octets (suc k) value = ground (arith, length-octets k (value / 128))

-- The number that goes into a prefix of `n` bits, and the octets that follow it.
unfoldable pub prefix_of : ℕ → ℕ → ℕ
prefix_of n value = if ltb value (2 ^ n - 1) then value else 2 ^ n - 1

unfoldable pub tail_of : ℕ → ℕ → List ℕ
tail_of n value = if ltb value (2 ^ n - 1) then [] else octets 4 (value - (2 ^ n - 1))

pub length-tail_of : (n value : ℕ) → length (tail_of n value) ≤ 5
unfolding tail_of
length-tail_of n value = ground (arith, length-octets 4 (value - (2 ^ n - 1)))

pub number_last : (b : ℕ) (bs : List ℕ) → b < 128 → number (b ∷ bs) ≡ some (b, 1)
unfolding number
number_last b bs h = ground arith

pub number_more :
    (b : ℕ) (bs : List ℕ) {v k : ℕ}
    → 128 ≤ b
    → number bs ≡ some (v, k)
    → number (b ∷ bs) ≡ some (b % 128 + 128 * v, k + 1)
unfolding number
number_more b bs h e = ground arith
