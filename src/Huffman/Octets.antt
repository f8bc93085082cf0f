-- ===== src/Huffman/Octets.antt =====
-- Tables for the simplest code, of eight bits for every octet, which agree.
use libhpack.Common.{
  ℕ, zero, suc, ◌+◌, ◌*◌, ◌/◌, ◌%◌, ◌^◌, ◌≤◌, ◌<◌, ◌≡◌, refl, sym, ap, ◌∙◌, arith, Bool, List, [],
  ◌∷◌, ◌++◌, some, true, false, length, bit, bit_and_low, inl, inr, Bool-cases, bits, bit_shr, ◌==◌,
  bit_and,
}
use mathlib.Core.List.{append-nil}
use native.Mathlib.Nat.{pow-suc, one-le-pow, div-div-eq-div-mul, div-add-mod}
use libhpack.Huffman.Encoder.{Code}
use libhpack.Huffman.Encoder.Stream.{code_bits}
use libhpack.Huffman.Tables.{AreTables, bits_byte, head_or, tail_or}
use libhpack.Huffman.{Entry}

-- A code of eight bits for every octet, and the decoder's table for it: half an octet is a state.
abbrev pub octet_codes : ℕ → Code
octet_codes x = record { bits = 8; code = x % 256 }

abbrev pub octet_table : ℕ → ℕ → Entry
octet_table zero c = record { state = some (suc c); flags = 0; sym = 0 }
octet_table (suc h) c = record { state = some 0; flags = 3; sym = h % 16 * 16 + c }

abbrev pub octet_read : ℕ → List Bool
octet_read zero = []
octet_read (suc h) = bits 4 (h % 16)

mod_next : (w v : ℕ) → v % 2 ^ suc w ≡ v / 2 ^ w % 2 * 2 ^ w + v % 2 ^ w
mod_next w v =
    let q = v / 2 ^ w in
    ground (
      arith,
      pow-suc 2 w,
      one-le-pow w 2,
      div-div-eq-div-mul v (2 ^ w) 2,
      div-add-mod v (2 ^ w),
      div-add-mod v (2 ^ suc w),
      ap (λ (t : ℕ). t * 2 ^ w) (let e : q ≡ q / 2 * 2 + q % 2 = omega arith in e),
    )

odd-inj : (a b : ℕ) → bit a 0 ≡ bit b 0 → a % 2 ≡ b % 2
odd-inj a b e = elim (Bool-cases (a % 2 == 1)) [
  | inl h ↦ ground (arith, sym e ∙ h)
  | inr h ↦ ground (arith, sym e ∙ h)
]

bits-inj : (w a b : ℕ) → bits w a ≡ bits w b → a % 2 ^ w ≡ b % 2 ^ w
bits-inj zero a b e = omega arith
bits-inj (suc w) a b e =
    let top : bit a w ≡ bit b w = ap (head_or true) e in
    let odd =
      odd-inj (a / 2 ^ w) (b / 2 ^ w)
        (bit_shr w 0 w a (omega arith) ∙ top ∙ sym (bit_shr w 0 w b (omega arith))) in
    mod_next w a
    ∙ ap (λ (t : ℕ). t * 2 ^ w + a % 2 ^ w) odd
    ∙ ap (λ (t : ℕ). b / 2 ^ w % 2 * 2 ^ w + t) (bits-inj w a b (ap (tail_or []) e))
    ∙ sym (mod_next w b)

joined : (h c : ℕ) → h < 16 → c < 16 → bits 4 h ++ bits 4 c ≡ bits 8 (h * 16 + c)
joined h c hh hc =
    let y : ℕ = h * 16 + c in
    ap (λ t. bits 4 t ++ bits 4 c) (let e : h ≡ y / 16 = omega arith in e)
    ∙ ap (λ t. bits 4 (y / 16) ++ bits 4 t)
        (let e : c ≡ bit_and y 15 = omega (arith, bit_and_low 4 y) in e)
    ∙ sym (bits_byte y (omega arith))

no_more : (rest : List Bool) → length rest ≡ 0 → rest ≡ []
no_more [] e = refl
no_more (x ∷ rest) e = absurd (omega arith)

pub octet_tables : AreTables octet_codes octet_table octet_read
octet_tables = record {
  codes_fit = record {
    size_in = λ x. omega arith;
    code_in = λ x. omega arith;
    eos_long = omega arith;
  };
  start_empty = refl;
  codes_long = λ x. omega arith;
  completed = completed;
  within = within;
}
  where
    completed :
        (s c x : ℕ) (rest : List Bool)
        → s < 256
        → c < 16
        → x < 256
        → length rest < 4
        → octet_read s ++ bits 4 c ≡ code_bits octet_codes x ++ rest
        → (s' : ℕ) × (flags : ℕ) × (octet_table s c
            ≡ record { state = some s'; flags = flags; sym = x })
          × ((bit_and flags 2 == 0) ≡ false)
          × (s' < 256)
          × (octet_read s' ≡ rest)
    completed zero c x rest hs hc hx few e = absurd (omega (arith, ap length e))
    completed (suc h) c x rest hs hc hx few e =
        let none : rest ≡ [] = no_more rest (omega (arith, ap length e)) in
        let whole : bits 8 (h % 16 * 16 + c) ≡ bits 8 (x % 256) =
          sym (joined (h % 16) c (omega arith) hc)
          ∙ e
          ∙ ap (λ t. code_bits octet_codes x ++ t) none
          ∙ append-nil (code_bits octet_codes x) in
        let same : h % 16 * 16 + c ≡ x =
          omega (arith, bits-inj 8 (h % 16 * 16 + c) (x % 256) whole) in
        (
          0,
          3,
          ap (λ t. record { state = some 0; flags = 3; sym = t }) same,
          refl,
          omega arith,
          sym none,
        )

    within :
        (s c x : ℕ) (more : List Bool)
        → s < 256
        → c < 16
        → x ≤ 256
        → 1 ≤ length more
        → (octet_read s ++ bits 4 c) ++ more ≡ code_bits octet_codes x
        → (s' : ℕ) × (flags : ℕ) × (sym : ℕ) × (octet_table s c
            ≡ record { state = some s'; flags = flags; sym = sym })
          × ((bit_and flags 2 == 0) ≡ true)
          × (s' < 256)
          × (octet_read s' ≡ octet_read s ++ bits 4 c)
    within zero c x more hs hc hx some_more e =
        (suc c, 0, 0, refl, refl, omega arith, ap (bits 4) (let e : c % 16 ≡ c = omega arith in e))
    within (suc h) c x more hs hc hx some_more e = absurd (omega (arith, ap length e))
