-- ===== src/Huffman/RoundTrip.antt =====
-- The decoder on what the encoder wrote.
use libhpack.Common.{
  ℕ, ◌+◌, ◌*◌, ◌^◌, ◌/◌, ◌%◌, ◌≤◌, ◌<◌, ◌≡◌, refl, sym, ap, ◌∙◌, arith, bit_and, Bool, true, false,
  List, [], ◌∷◌, ◌++◌, some, ltb, ◌==◌, not, All, Bool-cases, inl, inr, length, length-append,
}
use libhpack.Common.{bit_and_low, bits, length-bits}
use libhpack.Common.Ret.{ok}
use libhpack.Common.Run.{done}
use libhpack.Buffer
use libhpack.Buffer.{Buffer, Sized}
use libhpack.Integer.Decode.{IsByte}
use libhpack.Huffman.{Entry, DecodeContext, half_byte, decode, symbol_flag}
use libhpack.Huffman.Encoder.{Code, encode}
use libhpack.Huffman.Encoder.Pending.{bits_of_bytes}
use libhpack.Huffman.Encoder.Stream.{AreCodes, HasRoom, code_bits, codes_bits, encode-stream}
use libhpack.Huffman.Tables.{AreTables, cut_within, add-add_char, add-nil, bits_byte}
use mathlib.Core.List.{append_assoc}
use mathlib.Core.Path.{subst}

module _ (decode_table : ℕ → ℕ → Entry) (s c s' flags sym : ℕ)
    (e : decode_table s c ≡ record { state = some s'; flags = flags; sym = sym })
    (in_range : s' < 256) (out : Buffer) (accept : Bool) where
  half_byte_symbol :
      (bit_and flags symbol_flag == 0) ≡ false
      → (a : Bool) × (half_byte decode_table c out (record { state = s; accept = accept })
          ≡ (ok, Buffer.add_char out sym, record { state = s'; accept = a }))
  unfolding half_byte
  half_byte_symbol f =
      let small : s' % 256 ≡ s' = omega arith in
      (
        not (bit_and flags 1 == 0),
        rw (half_byte, ap (λ t. t.state) e, ap (λ t. t.flags) e, ap (λ t. t.sym) e, f, small) refl,
      )

  half_byte_within :
      (bit_and flags symbol_flag == 0) ≡ true
      → (a : Bool) × (half_byte decode_table c out (record { state = s; accept = accept })
          ≡ (ok, out, record { state = s'; accept = a }))
  unfolding half_byte
  half_byte_within f =
      let small : s' % 256 ≡ s' = omega arith in
      (
        not (bit_and flags 1 == 0),
        rw (half_byte, ap (λ t. t.state) e, ap (λ t. t.flags) e, ap (λ t. t.sym) e, f, small) refl,
      )

module _ {codes : ℕ → Code} {decode_table : ℕ → ℕ → Entry} {read : ℕ → List Bool}
    (tables : AreTables codes decode_table read) (pad rest : List Bool)
    (some_rest : 1 ≤ length rest) (first : pad ++ rest ≡ code_bits codes 256) where
  -- Less than the next symbol's code has been read.
  abbrev IsInside : ℕ → List ℕ → Type 0
  IsInside s [] = Unit
  IsInside s (x ∷ xs) = length (read s) < length (code_bits codes x)

  -- In state `s`, the symbols that are left and the bits that are left agree.
  record IsReady (s : ℕ) (xs : List ℕ) (left : List Bool) : Type 0 where
    state_in : s < 256
    symbols_in : All IsByte xs
    agree : read s ++ left ≡ codes_bits codes xs ++ pad
    inside : IsInside s xs

  next-IsInside : (s : ℕ) (xs : List ℕ) → length (read s) < 4 → IsInside s xs
  next-IsInside s [] h = tt
  next-IsInside s (x ∷ xs) h = omega (arith, tables.codes_long x)

  -- One half-byte.
  IsReady-step :
      (s c : ℕ) (xs : List ℕ) (left : List Bool) (out : Buffer) (accept : Bool)
      → c < 16
      → IsReady s xs (bits 4 c ++ left)
      → (out' : Buffer) × (s' : ℕ) × (a : Bool) × (xs' : List ℕ) × (half_byte decode_table c out
            (record { state = s; accept = accept })
          ≡ (ok, out', record { state = s'; accept = a }))
        × IsReady s' xs' left
        × (Buffer.add out xs ≡ Buffer.add out' xs')
  IsReady-step s c [] left out accept hc ready =
      let all : (read s ++ bits 4 c) ++ left ≡ pad =
        append_assoc (read s) (bits 4 c) left ∙ ready.agree in
      let (s', flags, sym, e, f, hs, r) =
        tables.within s c 256 (left ++ rest) ready.state_in hc (omega arith)
          (omega (arith, length-append left rest))
          (sym (append_assoc (read s ++ bits 4 c) left rest) ∙ ap (λ t. t ++ rest) all ∙ first) in
      let (a, h) = half_byte_within decode_table s c s' flags sym e hs out accept f in
      (
        out,
        s',
        a,
        [],
        h,
        record { state_in = hs; symbols_in = tt; agree = ap (λ t. t ++ left) r ∙ all; inside = tt },
        refl,
      )
  IsReady-step s c (x ∷ xs) left out accept hc ready =
      let now = read s ++ bits 4 c in
      let all : now ++ left ≡ code_bits codes x ++ (codes_bits codes xs ++ pad) =
        append_assoc (read s) (bits 4 c) left
        ∙ ready.agree
        ∙ append_assoc (code_bits codes x) (codes_bits codes xs) pad in
      let one : length now ≡ length (read s) + 4 = length-append (read s) (bits 4 c) in
      elim (Bool-cases (ltb (length now) (length (code_bits codes x)))) [
        | inl short ↦
            let (more, e1, e2) =
              cut_within now left (code_bits codes x) (codes_bits codes xs ++ pad) all
                (ground arith) in
            let (s', flags, sym', e, f, hs, r) =
              tables.within s c x more ready.state_in hc (omega (arith, ready.symbols_in.0))
                (ground (arith, ap length e1, length-append now more)) (sym e1) in
            let (a, h) = half_byte_within decode_table s c s' flags sym' e hs out accept f in
            (
              out,
              s',
              a,
              x ∷ xs,
              h,
              record {
                state_in = hs;
                symbols_in = ready.symbols_in;
                agree =
                    ap (λ t. t ++ left) r
                    ∙ all
                    ∙ sym (append_assoc (code_bits codes x) (codes_bits codes xs) pad);
                inside = ground (arith, ap length r);
              },
              refl,
            )
        | inr long ↦
            let (over, e1, e2) =
              cut_within (code_bits codes x) (codes_bits codes xs ++ pad) now left (sym all)
                (ground arith) in
            let few : length over < 4 =
              ground (arith, ready.inside, ap length e1, length-append (code_bits codes x) over) in
            let (s', flags, e, f, hs, r) =
              tables.completed s c x over ready.state_in hc (ready.symbols_in.0) few e1 in
            let (a, h) = half_byte_symbol decode_table s c s' flags x e hs out accept f in
            (
              Buffer.add_char out x,
              s',
              a,
              xs,
              h,
              record {
                state_in = hs;
                symbols_in = ready.symbols_in.1;
                agree = ap (λ t. t ++ left) r ∙ sym e2;
                inside = next-IsInside s' xs (ground (arith, few, ap length r));
              },
              sym (add-add_char out x xs),
            )
      ]

  -- `decode` on an octet and what follows it, where both halves succeed.
  decode_step :
      (b : ℕ) (bs : List ℕ) (out out1 out2 : Buffer) (c c1 c2 : DecodeContext)
      → half_byte decode_table (b / 16) out c ≡ (ok, out1, c1)
      → half_byte decode_table (bit_and b 15) out1 c1 ≡ (ok, out2, c2)
      → decode decode_table (b ∷ bs) out c ≡ decode decode_table bs out2 c2
  unfolding decode
  decode_step b bs out out1 out2 c c1 c2 e1 e2 = rw (e1, e2) refl

  ready_decode :
      (bs xs : List ℕ) (s : ℕ) (out : Buffer) (accept : Bool)
      → All IsByte bs
      → IsReady s xs (bits_of_bytes bs)
      → length pad < 8
      → (c : DecodeContext) × (decode decode_table bs out (record { state = s; accept = accept })
          ≡ (ok, Buffer.add out xs, c))
  unfolding decode
  ready_decode [] [] s out accept hb ready short = (
    record { state = s; accept = accept },
    ap (λ o. (ok, o, record { state = s; accept = accept })) (sym (add-nil out)),
  )
  ready_decode [] (x ∷ xs) s out accept hb ready short = absurd (
      omega (
        arith,
        ready.inside,
        ap length ready.agree,
        length-append (read s) [],
        length-append (code_bits codes x ++ codes_bits codes xs) pad,
        length-append (code_bits codes x) (codes_bits codes xs),
      ))
  ready_decode (b ∷ bs) xs s out accept (hb, hbs) ready short =
      let split : bits_of_bytes (b ∷ bs)
          ≡ bits 4 (b / 16) ++ (bits 4 (bit_and b 15) ++ bits_of_bytes bs) =
        ap (λ t. t ++ bits_of_bytes bs) (bits_byte b hb)
        ∙ append_assoc (bits 4 (b / 16)) (bits 4 (bit_and b 15)) (bits_of_bytes bs) in
      let (out1, s1, a1, xs1, h1, ready1, o1) =
        IsReady-step s (b / 16) xs (bits 4 (bit_and b 15) ++ bits_of_bytes bs) out accept
          (omega arith) (subst (IsReady s xs) split ready) in
      let (out2, s2, a2, xs2, h2, ready2, o2) =
        IsReady-step s1 (bit_and b 15) xs1 (bits_of_bytes bs) out1 a1
          (omega (arith, bit_and_low 4 b)) ready1 in
      let (c, e) = ready_decode bs xs2 s2 out2 a2 hbs ready2 short in
      (c, decode_step b bs out out1 out2 _ _ _ h1 h2 ∙ e ∙ ap (λ o. (ok, o, c)) (sym (o1 ∙ o2)))

-- What the encoder puts out, and how the decoder adds it to any output.
pub encode_read :
    {codes : ℕ → Code} {decode_table : ℕ → ℕ → Entry} {read : ℕ → List Bool}
    (tables : AreTables codes decode_table read) (xs : List ℕ) (has_memory : Bool) (size : ℕ)
    → All IsByte xs
    → size < 2 ^ 32
    → 5 * length xs + 2 < 2 ^ 32
    → HasRoom size 0 (length xs)
    → (bytes : List ℕ) × (size' : ℕ) × (pad : List Bool) × (encode codes xs
          (record { buffer = record { bytes = []; has_memory = has_memory }; size = size })
        ≡ done (ok, record { buffer = record { bytes = bytes; has_memory = true }; size = size' }))
      × (bits_of_bytes bytes ≡ codes_bits codes xs ++ pad)
      × (length pad < 8)
      × All IsByte bytes
      × (size ≤ size')
      × (size' < 2 ^ 32)
      × ((out : Buffer) (accept : Bool)
          → (c : DecodeContext) × (decode decode_table bytes out
                (record { state = 0; accept = accept })
              ≡ (ok, Buffer.add out xs, c)))
encode_read {codes} {decode_table} {read} tables xs has_memory size hx hs small room =
    let out : Sized = record {
      buffer = record { bytes = []; has_memory = has_memory };
      size = size;
    } in
    let (bytes, size', pad, rest, e, stream, short, first, hb, more, hs') =
      encode-stream codes tables.codes_fit xs out tt (omega arith) hs (omega arith) room in
    let some_rest : 1 ≤ length rest =
      omega (
        arith,
        short,
        ap length first,
        length-append pad rest,
        eos_length codes tables.codes_fit,
      ) in
    let nothing : length (read 0) ≡ 0 = ap length tables.start_empty in
    (
      bytes,
      size',
      pad,
      e,
      stream,
      short,
      hb,
      more,
      hs',
      λ out accept.
          ready_decode tables pad rest some_rest first bytes xs 0 out accept hb
            (record {
              state_in = omega arith;
              symbols_in = hx;
              agree = ap (λ t. t ++ bits_of_bytes bytes) tables.start_empty ∙ stream;
              inside = next-IsInside tables pad rest some_rest first 0 xs (omega arith);
            })
            short,
    )
  where
    eos_length : (codes : ℕ → Code) → AreCodes codes → 8 ≤ length (code_bits codes 256)
    eos_length codes h = omega (arith, h.eos_long, length-bits (codes 256).bits (codes 256).code)

-- With tables that agree, what the encoder puts into an empty buffer for a string of bytes, the
-- decoder reads back: both return ok, and the decoder adds exactly that string to its output. The
-- string has four bytes at least, or the buffer has memory for four octets each and one more; sizes
-- stay below 2 ^ 32.
pub decode-encode-AreTables :
    {codes : ℕ → Code} {decode_table : ℕ → ℕ → Entry} {read : ℕ → List Bool}
    (tables : AreTables codes decode_table read) (xs : List ℕ) (has_memory : Bool) (size : ℕ)
    (out : Buffer) (accept : Bool)
    → All IsByte xs
    → size < 2 ^ 32
    → 5 * length xs + 2 < 2 ^ 32
    → HasRoom size 0 (length xs)
    → (coded : Sized) × (c : DecodeContext) × (encode codes xs
          (record { buffer = record { bytes = []; has_memory = has_memory }; size = size })
        ≡ done (ok, coded))
      × (decode decode_table coded.buffer.bytes out (record { state = 0; accept = accept })
          ≡ (ok, Buffer.add out xs, c))
decode-encode-AreTables tables xs has_memory size out accept hx hs small room =
    let (bytes, size', pad, e, _, _, hb, _, _, reads) =
      encode_read tables xs has_memory size hx hs small room in
    let (c, d) = reads out accept in
    (record { buffer = record { bytes = bytes; has_memory = true }; size = size' }, c, e, d)
