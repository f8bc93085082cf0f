-- ===== src/Huffman/Encoder/Pending.antt =====
-- The bits that the encoder has written, and one step of its loop on them.
use libhpack.Common.{
  ℕ, ◌+◌, ◌-◌, ◌*◌, ◌/◌, ◌%◌, ◌^◌, ◌≤◌, ◌<◌, ◌≡◌, refl, sym, ap, ◌∙◌, arith, bit_or, Bool, true,
  false, ◌||◌, List, [], ◌∷◌, ◌++◌, All,
}
use libhpack.Common.{
  bit, bits, bit_zero, bit-bit_or, bit_shr, bit_shl, bit_shl_low, bit_byte, bits_eq, bits_split,
}
use libhpack.Integer.Decode.{IsByte}
use libhpack.Huffman.Encoder.{Writer, or_byte}
use mathlib.Core.List.{append_assoc, append-nil}
use mathlib.Core.Path.{ap₂}

abbrev pub bits_of_bytes : List ℕ → List Bool
bits_of_bytes [] = []
bits_of_bytes (b ∷ bs) = bits 8 b ++ bits_of_bytes bs

pub bits_of_bytes-append :
    (xs ys : List ℕ) → bits_of_bytes (xs ++ ys) ≡ bits_of_bytes xs ++ bits_of_bytes ys
bits_of_bytes-append [] ys = refl
bits_of_bytes-append (x ∷ xs) ys =
    ap (λ t. bits 8 x ++ t) (bits_of_bytes-append xs ys)
    ∙ sym (append_assoc (bits 8 x) (bits_of_bytes xs) (bits_of_bytes ys))

-- A byte behind others.
pub All-snoc : (xs : List ℕ) (x : ℕ) → All IsByte xs → IsByte x → All IsByte (xs ++ (x ∷ []))
All-snoc [] x h hx = (hx, tt)
All-snoc (y ∷ xs) x (hy, h) hx = (hy, All-snoc xs x h hx)

-- The bits that have been written.
abbrev pub pending : Writer → List Bool
pending w = bits (8 - w.remaining) (w.current / 2 ^ w.remaining)

abbrev pub stream : Writer → List Bool
stream w = bits_of_bytes w.written ++ pending w

-- The free bits of the last byte are 0.
pub record IsWriter (w : Writer) : Type 0 where
  pub some_free : 1 ≤ w.remaining
  pub free_in : w.remaining ≤ 8
  pub bytes_in : All IsByte w.written
  pub free_zero : (k : ℕ) → k < w.remaining → bit w.current k ≡ false

bit-or_byte : (k a x : ℕ) → k < 8 → bit (or_byte a x) k ≡ (bit a k || bit x k)
bit-or_byte k a x h = bit_byte k (bit_or a x) h ∙ bit-bit_or k a x

or_false : (b : Bool) → (b || false) ≡ b
or_false true = refl
or_false false = refl

bit_uint32 : (k a : ℕ) → k < 8 → bit (a % 2 ^ 32) k ≡ bit a k
bit_uint32 k a h =
    sym (bit_byte k (a % 2 ^ 32) h) ∙ ap (λ t. bit t k) (omega arith) ∙ bit_byte k a h

-- The bits of a code beyond its size, as far as they can reach the byte.
abbrev pub IsShort : ℕ → ℕ → ℕ → Type 0
IsShort code nbits remaining = (k : ℕ) → nbits ≤ k → k + remaining < nbits + 8 → bit code k ≡ false

-- A byte whose free bits are set from `x`.
module _ (cur r x : ℕ) (hr : r ≤ 8) (low : (k : ℕ) → k < r → bit cur k ≡ false)
    (high : (k : ℕ) → r ≤ k → k < 8 → bit x k ≡ false) where
  filled_high : (k : ℕ) → r ≤ k → k < 8 → bit (or_byte cur x) k ≡ bit cur k
  filled_high k h1 h2 =
      bit-or_byte k cur x h2 ∙ ap (λ b. bit cur k || b) (high k h1 h2) ∙ or_false (bit cur k)

  filled_low : (k : ℕ) → k < r → bit (or_byte cur x) k ≡ bit x k
  filled_low k h = bit-or_byte k cur x (omega arith) ∙ ap (λ b. b || bit x k) (low k h)

  -- Cut at `s`, of which the free bits are above: what was there, and then `n` bits of `x`.
  filled_bits :
      (n s : ℕ)
      → r ≡ n + s
      → bits (8 - s) (or_byte cur x / 2 ^ s) ≡ bits (8 - r) (cur / 2 ^ r) ++ bits n (x / 2 ^ s)
  filled_bits n s e =
      bits_split (8 - r) n (8 - s) (or_byte cur x / 2 ^ s) (omega arith)
      ∙ ap₂ ◌++◌
          (bits_eq (8 - r) (or_byte cur x / 2 ^ s / 2 ^ n) (cur / 2 ^ r) (λ k hk.
            bit_shr n k (n + k) (or_byte cur x / 2 ^ s) refl
            ∙ bit_shr s (n + k) (r + k) (or_byte cur x) (omega arith)
            ∙ filled_high (r + k) (omega arith) (omega arith)
            ∙ sym (bit_shr r k (r + k) cur refl)))
          (bits_eq n (or_byte cur x / 2 ^ s) (x / 2 ^ s) (λ k hk.
            bit_shr s k (s + k) (or_byte cur x) refl
            ∙ filled_low (s + k) (omega arith)
            ∙ sym (bit_shr s k (s + k) x refl)))

-- A code that fits the free bits.
module _ (w : Writer) (code n : ℕ) (hw : IsWriter w) (short : IsShort code n w.remaining)
    (fits : n < w.remaining) where
  unfoldable pub shift : ℕ
  shift = w.remaining - n

  unfoldable pub after_fit : Writer
  unfolding shift
  after_fit = record {
    written = w.written;
    current = or_byte w.current (code * 2 ^ shift % 2 ^ 32);
    remaining = shift;
  }

  shifted_high : (k : ℕ) → w.remaining ≤ k → k < 8 → bit (code * 2 ^ shift % 2 ^ 32) k ≡ false
  unfolding shift
  shifted_high k h1 h2 =
      bit_uint32 k (code * 2 ^ shift) h2
      ∙ bit_shl shift k (k - shift) code (omega arith)
      ∙ short (k - shift) (omega arith) (omega (arith, hw.free_in))

  pub after_fit-IsWriter : IsWriter after_fit
  unfolding after_fit shift
  after_fit-IsWriter = record {
    some_free = omega arith;
    free_in = omega (arith, hw.free_in);
    bytes_in = hw.bytes_in;
    free_zero = λ k hk.
        filled_low w.current w.remaining (code * 2 ^ shift % 2 ^ 32) hw.free_in hw.free_zero
          shifted_high k (omega arith)
        ∙ bit_uint32 k (code * 2 ^ shift) (omega (arith, hw.free_in))
        ∙ bit_shl_low shift k code hk;
  }

  pub after_fit-stream : stream after_fit ≡ stream w ++ bits n code
  unfolding after_fit shift
  after_fit-stream =
      ap (λ t. bits_of_bytes w.written ++ t)
        (filled_bits w.current w.remaining (code * 2 ^ shift % 2 ^ 32) hw.free_in hw.free_zero
            shifted_high n shift (omega arith)
          ∙ ap (λ t. pending w ++ t)
              (bits_eq n (code * 2 ^ shift % 2 ^ 32 / 2 ^ shift) code (λ k hk.
                bit_shr shift k (shift + k) (code * 2 ^ shift % 2 ^ 32) refl
                ∙ bit_uint32 (shift + k) (code * 2 ^ shift) (omega (arith, hw.free_in))
                ∙ bit_shl shift (shift + k) k code refl)))
      ∙ sym (append_assoc (bits_of_bytes w.written) (pending w) (bits n code))

-- A code that fills up the byte.
module _ (w : Writer) (code n : ℕ) (hw : IsWriter w) (short : IsShort code n w.remaining)
    (fills : w.remaining ≤ n) where
  unfoldable pub left : ℕ
  left = n - w.remaining

  unfoldable pub full : ℕ
  unfolding left
  full = or_byte w.current (code / 2 ^ left)

  pub full_bits : bits 8 full ≡ pending w ++ bits w.remaining (code / 2 ^ left)
  unfolding full left
  full_bits =
      let one_full : full / 2 ^ 0 ≡ full = omega arith in
      let one_part : code / 2 ^ left / 2 ^ 0 ≡ code / 2 ^ left = omega arith in
      ap (bits 8) (sym one_full)
      ∙ filled_bits w.current w.remaining (code / 2 ^ left) hw.free_in hw.free_zero
          (λ k h1 h2.
            bit_shr left k (left + k) code refl ∙ short (left + k) (omega arith) (omega arith))
          w.remaining 0 (omega arith)
      ∙ ap (λ t. pending w ++ bits w.remaining t) one_part

  unfoldable pub flushed : Writer
  unfolding full
  flushed = record { written = w.written ++ (full ∷ []); current = 0; remaining = 8 }

  pub flushed-IsWriter : IsWriter flushed
  unfolding flushed
  flushed-IsWriter = record {
    some_free = omega arith;
    free_in = omega arith;
    bytes_in = All-snoc w.written full hw.bytes_in (unfold full in omega arith);
    free_zero = λ k hk. bit_zero k;
  }

  pub flushed-stream : stream flushed ++ bits left code ≡ stream w ++ bits n code
  unfolding flushed left
  flushed-stream =
      ap (λ t. (t ++ []) ++ bits left code)
        (bits_of_bytes-append w.written (full ∷ [])
          ∙ ap (λ t. bits_of_bytes w.written ++ t) (append-nil (bits 8 full) ∙ full_bits)
          ∙ sym (
              append_assoc (bits_of_bytes w.written) (pending w)
                (bits w.remaining (code / 2 ^ left))))
      ∙ ap (λ t. t ++ bits left code) (append-nil (stream w ++ bits w.remaining (code / 2 ^ left)))
      ∙ append_assoc (stream w) (bits w.remaining (code / 2 ^ left)) (bits left code)
      ∙ ap (λ t. stream w ++ t) (sym (bits_split w.remaining left n code (omega arith)))
