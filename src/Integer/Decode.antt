-- ===== src/Integer/Decode.antt =====
-- What `hpack_integer_decode` makes of any octets.
use libhpack.Common.{ℕ, zero, suc, ◌+◌, ◌-◌, ◌*◌, ◌/◌, ◌%◌, ◌^◌, ◌≤◌, ◌<◌, min, bit_and}
use libhpack.Common.{◌≡◌, refl, ap, ◌∙◌, inl, inr, arith}
use libhpack.Common.{List, [], ◌∷◌, ◌++◌, Option, none, some, length, take, All}
use libhpack.Common.{
  get_elem?-append, length-append, bit_and_high, bit_and_low, Bool-cases, Option-cases, ltb,
  if◌then◌else◌,
}
use libhpack.Common.Ret.{Ret, ok, error}
use libhpack.Integer.{uint_max, vlq_max_len_integer, decode_loop, decode}
use libhpack.Integer.Vlq.{number}
use libhpack.Integer.Encode.{get-limits, pow-le-256}
use mathlib.Core.List.{append_assoc}
use native.Mathlib.Nat.{one-le-pow, pow-suc, pow-le-pow_right}
use native.Mathlib.Numerals.{towards_suc}

abbrev pub IsByte : ℕ → Type 0
IsByte b = b < 256

-- What is made of the number `v` in `k` octets, with `d` decoded and `i` octets consumed before.
abbrev outcome : ℕ → ℕ → ℕ → ℕ → ℕ → ℕ → Option (Ret × ℕ × ℕ)
outcome d i ret consumed v k =
    if ltb uint_max (d + v) then some (error, ret, consumed) else some (ok, d + v, i + k)

-- The answer of the decoder, without its loop.
unfoldable pub answer : ℕ → List ℕ → ℕ → ℕ → ℕ → Option (Ret × ℕ × ℕ)
answer n bs left p consumed =
    if ltb p (2 ^ n - 1) then some (ok, p, 1) else elim (number (take left bs)) [
      | none ↦ some (error, p, consumed)
      | some (v, k) ↦ outcome p 1 p consumed v k
    ]

group_bits : (b : ℕ) → IsByte b → (bit_and b 127 ≡ b % 128) × (bit_and b 128 ≡ b / 128 * 128)
group_bits b h = (bit_and_low 7 b, bit_and_high 7 b (omega arith) h)

shift_seven : (v m : ℕ) → v * 2 ^ (m + 7) ≡ 128 * v * 2 ^ m
shift_seven v m = omega (arith, ap (λ (t : ℕ). v * t) pow_seven)
  where
    pow_seven : 2 ^ (m + 7) ≡ 128 * 2 ^ m
    pow_seven = simp towards_suc (omega arith)

-- More octets than the rounds allow, or none that ends the number: an error.
loop_error :
    (left : ℕ) (pre bs : List ℕ) (m d ret consumed : ℕ)
    → All IsByte bs
    → left ≤ length bs
    → number (take left bs) ≡ none
    → decode_loop left (pre ++ bs) (length pre) m d ret consumed ≡ some (error, ret, consumed)
unfolding decode_loop number
loop_error zero pre bs m d ret consumed hb hl e = refl
loop_error (suc left) pre [] m d ret consumed hb hl e = absurd (omega arith)
loop_error (suc left) pre (b ∷ bs) m d ret consumed (hb, hbs) hl e = ground (
  arith,
  get_elem?-append pre b bs,
  group_bits b hb,
  append_assoc pre (b ∷ []) bs,
  length-append pre (b ∷ []),
  loop_error left (pre ++ (b ∷ [])) bs (m + 7) ((d + b % 128 * 2 ^ m) % 2 ^ 64) ret consumed hbs
      (omega arith),
)

loop_ok :
    (left : ℕ) (pre bs : List ℕ) (m d ret consumed : ℕ) {v k : ℕ}
    → All IsByte bs
    → number (take left bs) ≡ some (v, k)
    → d + v * 2 ^ m < 2 ^ 64
    → decode_loop left (pre ++ bs) (length pre) m d ret consumed
      ≡ outcome d (length pre) ret consumed (v * 2 ^ m) k
unfolding decode_loop number
loop_ok zero pre bs m d ret consumed hb e fits = cc
loop_ok (suc left) pre [] m d ret consumed hb e fits = cc
loop_ok (suc left) pre (b ∷ bs) m d ret consumed {v} {k} (hb, hbs) e fits =
    elim (Bool-cases (ltb b 128)) [
      | inl small ↦
          let one : b ≡ v = ground arith in
          let low : b % 128 ≡ v = ground arith in
          ground (arith, get_elem?-append pre b bs, group_bits b hb, ap (λ (t : ℕ). t * 2 ^ m) low)
      | inr large ↦ elim (Option-cases (number (take left bs))) [
        | inl ends ↦ ground arith
        | inr ((w, j), more) ↦
            let sum : v ≡ b % 128 + 128 * w = ground arith in
            let split : v * 2 ^ m ≡ b % 128 * 2 ^ m + w * 2 ^ (m + 7) =
              omega (arith, ap (λ (t : ℕ). t * 2 ^ m) sum, shift_seven w m) in
            ground (
              arith,
              split,
              get_elem?-append pre b bs,
              group_bits b hb,
              append_assoc pre (b ∷ []) bs,
              length-append pre (b ∷ []),
              loop_ok left (pre ++ (b ∷ [])) bs (m + 7) (d + b % 128 * 2 ^ m) ret consumed hbs more
                  (omega arith),
            )
      ]
    ]

pub number_bounds :
    (left : ℕ) (bs : List ℕ) {v k : ℕ}
    → number (take left bs) ≡ some (v, k)
    → (v < 128 ^ left) × (1 ≤ k) × (k ≤ left) × (k ≤ length bs)
unfolding number
number_bounds zero bs e = cc
number_bounds (suc left) [] e = cc
number_bounds (suc left) (b ∷ bs) {v} {k} e = elim (Bool-cases (ltb b 128)) [
  | inl small ↦ ground (arith, pow-suc 128 left, one-le-pow left 128)
  | inr large ↦ elim (Option-cases (number (take left bs))) [
    | inl ends ↦ ground arith
    | inr ((w, j), more) ↦ ground (arith, number_bounds left bs more, pow-suc 128 left)
  ]
]

pow-le-128 : (left : ℕ) → left ≤ 5 → 128 ^ left ≤ 2 ^ 35
pow-le-128 left h = pow-le-pow_right {n = 128} (omega arith) {j = 5} h

-- The loop of `decode`, from its start behind the first octet.
loop_answer :
    (left p first consumed : ℕ) (bs : List ℕ)
    → All IsByte bs
    → left ≤ 5
    → left ≤ length bs
    → p < 256
    → decode_loop left (first ∷ bs) 1 0 p p consumed ≡ (elim (number (take left bs)) [
      | none ↦ some (error, p, consumed)
      | some (v, k) ↦ outcome p 1 p consumed v k
    ])
loop_answer left p first consumed bs hbs h5 hl hp = elim (Option-cases (number (take left bs))) [
  | inl ends ↦ rw ends (loop_error left (first ∷ []) bs 0 p p consumed hbs hl ends)
  | inr ((v, k), e) ↦ rw e (
      loop_ok left (first ∷ []) bs 0 p p consumed hbs e
        (omega (arith, number_bounds left bs e, pow-le-128 left h5))
      ∙ ap (λ t. outcome p 1 p consumed t k) (omega arith))
]

-- On any octets, with a prefix of up to eight bits and a length that the memory has, the decoder
-- reads nothing outside the memory and gives the answer of the independent description: the
-- prefix alone if it is not full, or else the number of the octets behind it, and an error where
-- that number does not end in the rounds allowed or does not fit 32 bits.
pub decode-answer :
    (n first mem_len consumed : ℕ) (bs : List ℕ)
    → n ≤ 8
    → first < 256
    → All IsByte bs
    → mem_len ≤ length bs + 1
    → decode n (first ∷ bs) mem_len consumed
      ≡ answer n bs (min mem_len vlq_max_len_integer - 1) (first % 2 ^ n) consumed
unfolding decode answer
decode-answer n first mem_len consumed bs hn hf hbs hl = ground (
  arith,
  get-limits n hn,
  pow-le-256 n hn,
  bit_and_low n first,
  one-le-pow n 2,
  loop_answer (min mem_len 6 - 1) (first % 2 ^ n) first consumed bs hbs (omega arith) (omega arith)
      (omega arith),
)

-- A number that the decoder returns fits an `unsigned int`; it has used at least one octet, at
-- most six, and none beyond the length that it was given, which is one at least.
pub decode_bounds :
    (n first mem_len consumed : ℕ) (bs : List ℕ) {v k : ℕ}
    → n ≤ 8
    → first < 256
    → All IsByte bs
    → 1 ≤ mem_len
    → mem_len ≤ length bs + 1
    → decode n (first ∷ bs) mem_len consumed ≡ some (ok, v, k)
    → (v < 2 ^ 32) × (1 ≤ k) × (k ≤ vlq_max_len_integer) × (k ≤ mem_len)
unfolding answer
decode_bounds n first mem_len consumed bs {v} {k} hn hf hbs h1 hl e =
    let is = decode-answer n first mem_len consumed bs hn hf hbs hl in
    let left : ℕ = min mem_len 6 - 1 in
    elim (Option-cases (number (take left bs))) [
      | inl ends ↦ ground (arith, is, pow-le-256 n hn)
      | inr ((w, j), more) ↦ ground (arith, is, pow-le-256 n hn, number_bounds left bs more)
    ]
