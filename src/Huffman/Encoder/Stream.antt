-- ===== src/Huffman/Encoder/Stream.antt =====
-- The output of the encoder as a sequence of bits.
use libhpack.Common.{
  ℕ, zero, ◌-◌, ◌/◌, ◌^◌, ◌≤◌, ◌<◌, ◌≡◌, refl, sym, ap, ◌∙◌, arith, Bool, true, List, [], ◌∷◌, ◌++◌,
  ltb, ◌==◌, All, Bool-cases, inl, inr, length, ◌+◌, ◌*◌, ◌⊎◌, length-append, suc,
}
use libhpack.Common.{bits, bit_zero, bits_split, length-bits, bit_above}
use libhpack.Common.Ret.{ok}
use libhpack.Common.Run.{done}
use libhpack.Buffer.{Buffer, Sized, ensure_size}
use libhpack.Integer.Decode.{IsByte}
use libhpack.Huffman.Encoder.{
  Code, Writer, grown, symbol_loop, encode_symbol, encode_loop, padded, encode,
}
use mathlib.Core.List.{append_assoc, append-nil}
use libhpack.Huffman.Encoder.Pending.{
  bits_of_bytes, bits_of_bytes-append, All-snoc, pending, stream, IsWriter, IsShort, shift,
  after_fit, left, full, flushed, after_fit-IsWriter, after_fit-stream, flushed-IsWriter,
  flushed-stream, full_bits,
}

-- The bits that are in use.
abbrev used : Writer → ℕ
used w = 8 * length w.written + (8 - w.remaining)

-- Where the memory has room for the bits.
symbol_loop-stream :
    (rounds size code n : ℕ) (w : Writer)
    → n < rounds
    → used w + n < 8 * size
    → IsWriter w
    → IsShort code n w.remaining
    → (w' : Writer) × (symbol_loop rounds size code n w ≡ done w')
      × IsWriter w'
      × (stream w' ≡ stream w ++ bits n code)
      × (used w' ≡ used w + n)
unfolding symbol_loop after_fit shift flushed full left
symbol_loop-stream zero size code n w enough room hw short = absurd (omega arith)
symbol_loop-stream (suc rounds) size code n w enough room hw short =
    let there : ltb (length w.written) size ≡ true = ground arith in
    elim (Bool-cases (ltb n w.remaining)) [
      | inl fits ↦
          let h : n < w.remaining = ground arith in
          (
            after_fit w code n hw short h,
            rw (there, fits),
            after_fit-IsWriter w code n hw short h,
            after_fit-stream w code n hw short h,
            omega (arith, hw.free_in),
          )
      | inr fills ↦
          let h : w.remaining ≤ n = ground arith in
          let whole = flushed-stream w code n hw short h in
          let next = flushed w code n hw short h in
          let more : used next ≡ used w + w.remaining =
            omega (arith, hw.free_in, length-append w.written (full w code n hw short h ∷ [])) in
          elim (Bool-cases (n - w.remaining == 0)) [
            | inl over ↦ (
              next,
              rw (there, fills, over),
              flushed-IsWriter w code n hw short h,
              sym (append-nil (stream next))
                  ∙ ap (λ m. stream next ++ bits m code)
                      (let z : 0 ≡ n - w.remaining = ground arith in z)
                  ∙ whole,
              ground (arith, more),
            )
            | inr others ↦
                let (w', e, hw', s, u) =
                  symbol_loop-stream rounds size code (n - w.remaining) next
                    (omega (arith, hw.some_free)) (omega (arith, more))
                    (flushed-IsWriter w code n hw short h) (λ k h1 h2. absurd (omega arith)) in
                (w', rw (there, fills, others) e, hw', s ∙ whole, omega (arith, u, more))
          ]
    ]

-- The memory that a loop over `n` symbols needs if it is not to write behind it: the buffer grows by
-- the length of the whole input, which is enough for one code if that is four symbols at least.
abbrev pub HasRoom : ℕ → ℕ → ℕ → Type 0
HasRoom size len n = (4 ≤ n) ⊎ (len + 4 * n < size)

-- The codes, which the build generates, are numbers of as many bits as they say, up to the 32 of
-- their C type; the code 256 has a byte's at least.
pub record AreCodes (codes : ℕ → Code) : Type 0 where
  pub size_in : (x : ℕ) → (codes x).bits ≤ 32
  pub code_in : (x : ℕ) → (codes x).code < 2 ^ (codes x).bits
  pub eos_long : 8 ≤ (codes 256).bits

abbrev pub code_bits : (ℕ → Code) → ℕ → List Bool
code_bits codes x = bits (codes x).bits (codes x).code

abbrev pub codes_bits : (ℕ → Code) → List ℕ → List Bool
codes_bits codes [] = []
codes_bits codes (x ∷ xs) = code_bits codes x ++ codes_bits codes xs

module _ (codes : ℕ → Code) (hc : AreCodes codes) where
  code-IsShort : (x r : ℕ) → IsShort (codes x).code (codes x).bits r
  code-IsShort x r k h1 h2 = bit_above (codes x).bits k (codes x).code (hc.code_in x) h1

  -- What a symbol needs, after the buffer has grown.
  grown_enough :
      (size len in_len n : ℕ)
      → len + in_len + 1 < 2 ^ 32
      → len ≤ size
      → size < 2 ^ 32
      → (4 ≤ in_len) ⊎ (len + 4 * suc n < size)
      → (len + 5 ≤ grown size len in_len)
        × (size ≤ grown size len in_len)
        × (grown size len in_len < 2 ^ 32)
  grown_enough size len in_len n small within hs (inl long) = ground arith
  grown_enough size len in_len n small within hs (inr room) = ground arith

  encode_loop-stream :
      (in_len : ℕ) (xs : List ℕ) (size : ℕ) (w : Writer)
      → IsWriter w
      → length w.written ≤ size
      → size < 2 ^ 32
      → used w + 32 * length xs + 8 * in_len + 8 < 2 ^ 35
      → (4 ≤ in_len) ⊎ (used w + 32 * length xs < 8 * size)
      → (w' : Writer) × (size' : ℕ) × (encode_loop codes in_len xs size w ≡ done (w', size'))
        × IsWriter w'
        × (stream w' ≡ stream w ++ codes_bits codes xs)
        × (size ≤ size')
        × (size' < 2 ^ 32)
        × (used w' ≤ used w + 32 * length xs)
  unfolding encode_loop encode_symbol
  encode_loop-stream in_len [] size w hw within hs small room =
      (w, size, refl, hw, sym (append-nil (stream w)), omega arith, hs, omega arith)
  encode_loop-stream in_len (x ∷ xs) size w hw within hs small room =
      let size1 = grown size (length w.written) in_len in
      let (enough, more, hs1) =
        grown_enough size (length w.written) in_len (length xs) (omega arith) within hs
          (four room) in
      let (w1, e1, hw1, s1, u1) =
        symbol_loop-stream (suc (codes x).bits) size1 (codes x).code (codes x).bits w (omega arith)
          (omega (arith, hc.size_in x, hw.some_free)) hw (code-IsShort x w.remaining) in
      let (w2, size2, e2, hw2, s2, more2, hs2, u2) =
        encode_loop-stream in_len xs size1 w1 hw1 (omega (arith, hc.size_in x, hw.some_free, u1))
          hs1 (omega (arith, hc.size_in x, u1)) (left_over room u1 more) in
      (
        w2,
        size2,
        rw e1 e2,
        hw2,
        s2
            ∙ ap (λ t. t ++ codes_bits codes xs) s1
            ∙ append_assoc (stream w) (code_bits codes x) (codes_bits codes xs),
        omega arith,
        hs2,
        omega (arith, hc.size_in x, u1, u2),
      )
    where
      four :
          (4 ≤ in_len) ⊎ (used w + 32 * suc (length xs) < 8 * size)
          → (4 ≤ in_len) ⊎ (length w.written + 4 * suc (length xs) < size)
      four (inl long) = inl long
      four (inr room) = inr (omega arith)

      left_over :
          {n size1 : ℕ}
          → (4 ≤ in_len) ⊎ (used w + 32 * suc (length xs) < 8 * size)
          → n ≡ used w + (codes x).bits
          → size ≤ size1
          → (4 ≤ in_len) ⊎ (n + 32 * length xs < 8 * size1)
      left_over (inl long) e more = inl long
      left_over (inr room) e more = inr (omega (arith, hc.size_in x))

  -- The bits that fill up the last byte are the first ones of the code 256.
  padded_bits :
      (w : Writer)
      → IsWriter w
      → (pad : List Bool) × (rest : List Bool) × (bits_of_bytes (padded codes w) ≡ stream w ++ pad)
        × (length pad < 8)
        × (pad ++ rest ≡ code_bits codes 256)
        × All IsByte (padded codes w)
  unfolding padded left full
  padded_bits w hw = elim (Bool-cases (ltb w.remaining 8)) [
    | inl some_free ↦
        let fills : w.remaining ≤ (codes 256).bits = ground (arith, hc.eos_long) in
        let short = code-IsShort 256 w.remaining in
        let last = full w (codes 256).code (codes 256).bits hw short fills in
        let cut = (codes 256).bits - w.remaining in
        (
          bits w.remaining ((codes 256).code / 2 ^ cut),
          bits cut (codes 256).code,
          rw some_free (
              bits_of_bytes-append w.written (last ∷ [])
              ∙ ap (λ t. bits_of_bytes w.written ++ t)
                  (append-nil (bits 8 last)
                    ∙ full_bits w (codes 256).code (codes 256).bits hw short fills)
              ∙ sym (
                  append_assoc (bits_of_bytes w.written) (pending w)
                    (bits w.remaining ((codes 256).code / 2 ^ cut)))),
          ground (arith, length-bits w.remaining ((codes 256).code / 2 ^ cut)),
          sym (bits_split w.remaining cut (codes 256).bits (codes 256).code (omega arith)),
          rw some_free (All-snoc w.written last hw.bytes_in (unfold full in omega arith)),
        )
    | inr none_free ↦
        let whole : 8 - w.remaining ≡ 0 = ground (arith, hw.free_in) in
        let nothing : pending w ≡ [] = ap (λ n. bits n (w.current / 2 ^ w.remaining)) whole in
        (
          [],
          code_bits codes 256,
          rw none_free (
              sym (append-nil (bits_of_bytes w.written))
              ∙ ap (λ t. bits_of_bytes w.written ++ t) (sym nothing)
              ∙ sym (append-nil (stream w))),
          omega arith,
          refl,
          rw none_free hw.bytes_in,
        )
  ]

  start-IsWriter :
      (out : Buffer)
      → All IsByte out.bytes
      → IsWriter (record { written = out.bytes; current = 0; remaining = 8 })
  start-IsWriter out h = record {
    some_free = omega arith;
    free_in = omega arith;
    bytes_in = h;
    free_zero = λ k hk. bit_zero k;
  }

  length-padded : (w : Writer) → length (padded codes w) ≤ length w.written + 1
  unfolding padded
  length-padded w = elim (Bool-cases (ltb w.remaining 8)) [
    | inl some_free ↦ rw some_free (omega (arith, length-append w.written (_ ∷ [])))
    | inr none_free ↦ rw none_free (omega arith)
  ]

  -- Where the codes are numbers of as many bits as they say, up to 32, and that of 256 has eight at
  -- least, `hpack_huffman_encode` returns ok on an output of bytes and an input of four symbols at
  -- least, or of fewer if the output has memory for four bytes each and one more. The sizes must stay
  -- below 2 ^ 32. Behind the bits that the output had, it puts the codes of the symbols in their order
  -- and less than a byte of the first bits of the code 256; the output is still one of bytes, and its
  -- memory has not become smaller.
  pub encode-stream :
      (xs : List ℕ) (out : Sized)
      → All IsByte out.buffer.bytes
      → length out.buffer.bytes ≤ out.size
      → out.size < 2 ^ 32
      → length out.buffer.bytes + 5 * length xs + 2 < 2 ^ 32
      → HasRoom out.size (length out.buffer.bytes) (length xs)
      → (bytes : List ℕ) × (size : ℕ) × (pad : List Bool) × (rest : List Bool) × (encode codes xs
            out
          ≡ done (ok, record { buffer = record { bytes = bytes; has_memory = true }; size = size }))
        × (bits_of_bytes bytes ≡ bits_of_bytes out.buffer.bytes ++ (codes_bits codes xs ++ pad))
        × (length pad < 8)
        × (pad ++ rest ≡ code_bits codes 256)
        × All IsByte bytes
        × (out.size ≤ size)
        × (size < 2 ^ 32)
  unfolding encode
  encode-stream xs out h within hs small room =
      let (w, size, e, hw, s, more, hs', u) =
        encode_loop-stream (length xs) xs out.size
          (record { written = out.buffer.bytes; current = 0; remaining = 8 })
          (start-IsWriter out.buffer h) within hs (omega arith) (in_bits room) in
      let (pad, rest, p, short, first, hb) = padded_bits w hw in
      let size' = ensure_size size (length (padded codes w) + 1) in
      let last = length-padded w in
      (
        padded codes w,
        size',
        pad,
        rest,
        rw e refl,
        p
            ∙ ap (λ t. t ++ pad)
                (s
                  ∙ ap (λ t. t ++ codes_bits codes xs)
                      (append-nil (bits_of_bytes out.buffer.bytes)))
            ∙ append_assoc (bits_of_bytes out.buffer.bytes) (codes_bits codes xs) pad,
        short,
        first,
        hb,
        ground (arith, more, u, last),
        ground (arith, hs', u, last),
      )
    where
      in_bits :
          HasRoom out.size (length out.buffer.bytes) (length xs)
          → (4 ≤ length xs) ⊎ (8 * length out.buffer.bytes + 0 + 32 * length xs < 8 * out.size)
      in_bits (inl long) = inl long
      in_bits (inr room) = inr (omega arith)
