-- ===== src/Huffman/Tables.antt =====
-- When the tables of the encoder and of the decoder agree, and lemmas on bits and buffers.
use libhpack.Common.{
  ℕ, zero, suc, ◌/◌, ◌≤◌, ◌<◌, ◌≡◌, refl, sym, ap, ◌∙◌, arith, bit_and, Bool, true, false, List, [],
  ◌∷◌, ◌++◌, some, ◌==◌, ◌&&◌, length,
}
use libhpack.Common.{bit, bit-bit_and, bits, bits_split, bits_eq}
use libhpack.Buffer
use libhpack.Buffer.{Buffer}
use libhpack.Huffman.{Entry, symbol_flag}
use libhpack.Huffman.Encoder.{Code}
use libhpack.Huffman.Encoder.Stream.{AreCodes, code_bits}
use mathlib.Core.List.{append_assoc}

-- Where two cuts of a list meet.
module _ {A : Type 0} where
  abbrev pub tail_or : List A → List A → List A
  tail_or d [] = d
  tail_or d (x ∷ xs) = xs

  abbrev pub head_or : A → List A → A
  head_or d [] = d
  head_or d (x ∷ xs) = x

  pub cut_within :
      (xs ys us vs : List A)
      → xs ++ ys ≡ us ++ vs
      → length xs ≤ length us
      → (more : List A) × (us ≡ xs ++ more) × (ys ≡ more ++ vs)
  cut_within [] ys us vs e h = (us, refl, e)
  cut_within (x ∷ xs) ys [] vs e h = absurd (omega arith)
  cut_within (x ∷ xs) ys (u ∷ us) vs e h =
      let (more, e1, e2) = cut_within xs ys us vs (ap (tail_or []) e) (omega arith) in
      (more, ap (λ t. t ∷ us) (sym (ap (head_or x) e)) ∙ ap (λ t. x ∷ t) e1, e2)

-- What the two tables, which the build generates, have to do with each other. A state of the decoder
-- stands for the bits of a code that have been read. Four bits that complete the code of a symbol
-- lead to an entry with this symbol, and four that do not, to one without; the entry's state stands
-- for the bits that are left.
pub record AreTables (codes : ℕ → Code) (decode_table : ℕ → ℕ → Entry) (read : ℕ → List Bool)
    : Type 0 where
  pub codes_fit : AreCodes codes
  pub start_empty : read 0 ≡ []
  pub codes_long : (x : ℕ) → 4 ≤ length (code_bits codes x)
  pub completed :
      (s c x : ℕ) (rest : List Bool)
      → s < 256
      → c < 16
      → x < 256
      → length rest < 4
      → read s ++ bits 4 c ≡ code_bits codes x ++ rest
      → (s' : ℕ) × (flags : ℕ) × (decode_table s c
          ≡ record { state = some s'; flags = flags; sym = x })
        × ((bit_and flags symbol_flag == 0) ≡ false)
        × (s' < 256)
        × (read s' ≡ rest)
  pub within :
      (s c x : ℕ) (more : List Bool)
      → s < 256
      → c < 16
      → x ≤ 256
      → 1 ≤ length more
      → (read s ++ bits 4 c) ++ more ≡ code_bits codes x
      → (s' : ℕ) × (flags : ℕ) × (sym : ℕ) × (decode_table s c
          ≡ record { state = some s'; flags = flags; sym = sym })
        × ((bit_and flags symbol_flag == 0) ≡ true)
        × (s' < 256)
        × (read s' ≡ read s ++ bits 4 c)

-- Adding symbols one at a time.
pub add-add_char :
    (out : Buffer) (x : ℕ) (xs : List ℕ)
    → Buffer.add (Buffer.add_char out x) xs ≡ Buffer.add out (x ∷ xs)
unfolding Buffer.add Buffer.add_char
add-add_char out x [] = refl
add-add_char out x (y ∷ ys) =
    ap (λ t. record { bytes = t; has_memory = true }) (append_assoc out.bytes (x ∷ []) (y ∷ ys))

pub add-nil : (out : Buffer) → Buffer.add out [] ≡ out
unfolding Buffer.add
add-nil out = refl

bit_15 : (k : ℕ) → k < 4 → bit 15 k ≡ true
bit_15 zero h = refl
bit_15 (suc zero) h = refl
bit_15 (suc (suc zero)) h = refl
bit_15 (suc (suc (suc zero))) h = refl
bit_15 (suc (suc (suc (suc k)))) h = absurd (omega arith)

and_true : (b : Bool) → (b && true) ≡ b
and_true true = refl
and_true false = refl

pub bits_byte : (b : ℕ) → b < 256 → bits 8 b ≡ bits 4 (b / 16) ++ bits 4 (bit_and b 15)
bits_byte b h =
    bits_split 4 4 8 b refl
    ∙ ap (λ t. bits 4 (b / 16) ++ t)
        (bits_eq 4 b (bit_and b 15) (λ k hk.
          sym (bit-bit_and k b 15 ∙ ap (λ t. bit b k && t) (bit_15 k hk) ∙ and_true (bit b k))))
