-- ===== src/HeaderEncoder/Strings.antt =====
-- The strings of the encoder, read by the parser.
use libhpack.Common.{
  ℕ, ◌+◌, ◌*◌, ◌/◌, ◌^◌, ◌≤◌, ◌<◌, ◌≡◌, refl, sym, ap, ◌∙◌, arith, Bool, true, false, List, [], ◌∷◌,
  ◌++◌, some, length, All,
}
use libhpack.Common.Ret.{ok}
use libhpack.Common.Run.{done}
use libhpack.Buffer
use libhpack.Buffer.{Buffer, Sized}
use libhpack.Huffman.{Entry}
use libhpack.Common.{length-append, bits, length-bits, Bool-cases, leb, inl, inr}
use libhpack.Huffman.Encoder.{Code}
use libhpack.Huffman.Encoder.Pending.{bits_of_bytes}
use libhpack.Huffman.Encoder.Stream.{HasRoom, code_bits, codes_bits}
use libhpack.Huffman.Tables.{AreTables}
use libhpack.Huffman.RoundTrip.{encode_read}
use libhpack.Integer
use libhpack.Integer.Decode.{IsByte}
use libhpack.Integer.Encode.{encode_lem}
use libhpack.Integer.Vlq.{prefix_of, tail_of}
use libhpack.HeaderParser.Strings.{parse_string}
use libhpack.HeaderParser.Strings.Read.{string_of, parse_plain, parse_coded}
use libhpack.HeaderEncoder.{compose, add_string, mem_of}
use mathlib.Core.List.{append_assoc, append-nil}

-- A short number is its prefix.
small_prefix : (n : ℕ) → n < 127 → (prefix_of 7 n ≡ n) × (tail_of 7 n ≡ [])
unfolding prefix_of tail_of
small_prefix n h = ground arith

bytes-add : (b : Buffer) (xs : List ℕ) → (Buffer.add b xs).bytes ≡ b.bytes ++ xs
unfolding Buffer.add
bytes-add b [] = sym (append-nil b.bytes)
bytes-add b (x ∷ xs) = refl

compose_lem :
    (high : ℕ) (body output : Buffer)
    → high < 2
    → length body.bytes < 127
    → (output' : Buffer) × (compose (high * 128) body output ≡ done (ok, output'))
      × (output'.bytes ≡ output.bytes ++ string_of high body.bytes)
unfolding compose Buffer.add_buffer
compose_lem high body output hh hl =
    let n = length body.bytes in
    let (head, tail) = small_prefix n hl in
    let post : List ℕ = 0 ∷ 0 ∷ 0 ∷ 0 ∷ 0 ∷ 0 ∷ 0 ∷ 0 ∷ 0 ∷ 0 ∷ 0 ∷ 0 ∷ 0 ∷ 0 ∷ 0 ∷ [] in
    let x : high * 128 / 2 ^ 7 * 2 ^ 7 + prefix_of 7 n ≡ high * 128 + n = omega (arith, head) in
    let e : Integer.encode 7 n (mem_of (high * 128)) ≡ some (ok, (high * 128 + n) ∷ post, 1) =
      encode_lem 7 n (high * 128) post (omega arith) (omega arith) (omega arith)
        (omega (arith, ap length tail))
      ∙ rw (tail, x) refl in
    (
      Buffer.add (Buffer.add output ((high * 128 + n) ∷ [])) body.bytes,
      rw e refl,
      bytes-add (Buffer.add output ((high * 128 + n) ∷ [])) body.bytes
          ∙ ap (λ t. t ++ body.bytes) (bytes-add output ((high * 128 + n) ∷ []))
          ∙ append_assoc output.bytes ((high * 128 + n) ∷ []) body.bytes,
    )

-- The bytes in front, the ones of the string, and those behind.
split_block :
    (b pre body suf : List ℕ) (high : ℕ) (out : List ℕ)
    → out ≡ pre ++ string_of high body
    → b ≡ out ++ suf
    → b ≡ pre ++ (string_of high body ++ suf)
split_block b pre body suf high out e is =
    is ∙ ap (λ t. t ++ suf) e ∙ append_assoc pre (string_of high body) suf

length-bits_of_bytes : (xs : List ℕ) → length (bits_of_bytes xs) ≡ 8 * length xs
length-bits_of_bytes [] = refl
length-bits_of_bytes (x ∷ xs) =
    omega
      (arith, length-bits_of_bytes xs, length-append (bits 8 x) (bits_of_bytes xs), length-bits 8 x)

-- The memory of `enc->tmp`, which starts with 32 bytes and only grows.
abbrev pub IsUsable : Sized → Type 0
IsUsable tmp = (32 ≤ tmp.size) × (tmp.size < 2 ^ 32)

module _ (codes : ℕ → Code) where
  -- The codes of a string fit 126 octets, so that one octet gives their length.
  abbrev pub IsShortCoded : List ℕ → Type 0
  IsShortCoded xs = length (codes_bits codes xs) ≤ 8 * 126

  -- What a string needs to be rendered so that one octet gives its length.
  abbrev pub IsRenderable : Bool → List ℕ → Type 0
  IsRenderable true xs = All IsByte xs × IsShortCoded xs
  IsRenderable false xs = length xs < 127

  module _ {decode_table : ℕ → ℕ → Entry} {read : ℕ → List Bool}
      (tables : AreTables codes decode_table read) where
    -- Every code has four bits at least.
    codes_longer : (xs : List ℕ) → 4 * length xs ≤ length (codes_bits codes xs)
    codes_longer [] = omega arith
    codes_longer (x ∷ xs) = omega (
      arith,
      tables.codes_long x,
      codes_longer xs,
      length-append (code_bits codes x) (codes_bits codes xs),
    )

    room : (n size : ℕ) → 32 ≤ size → HasRoom size 0 n
    room n size h = elim (Bool-cases (leb 4 n)) [
      | inl long ↦ inl (ground arith)
      | inr short ↦ inr (ground arith)
    ]

    -- What `add_string` puts out, and how the parser reads it from any block that goes on with it.
    pub add_string_read :
        (huffman : Bool) (tmp : Sized) (input output : Buffer)
        → IsUsable tmp
        → IsRenderable huffman input.bytes
        → (tmp' : Sized) × (output' : Buffer) × (added : List ℕ) × (add_string codes tmp input
              huffman output
            ≡ done (ok, tmp', output'))
          × IsUsable tmp'
          × (output'.bytes ≡ output.bytes ++ added)
          × (length added ≤ 127)
          × ((b : Buffer) (suf : List ℕ) (string : Buffer)
              → length b.bytes < 2 ^ 31
              → b.bytes ≡ output'.bytes ++ suf
              → parse_string decode_table b (length output.bytes) string
                ≡ done (ok, Buffer.add string input.bytes, huffman, length added))
    unfolding add_string Buffer.clean
    add_string_read false tmp input output usable h =
        let (output', e, s) = compose_lem 0 input output (omega arith) h in
        (
          record { buffer = Buffer.clean tmp.buffer; size = tmp.size },
          output',
          string_of 0 input.bytes,
          rw e refl,
          usable,
          s,
          omega arith,
          λ b suf string small is.
              parse_plain b output.bytes input.bytes suf 0 h small
                (split_block b.bytes output.bytes input.bytes suf 0 output'.bytes s is) decode_table
                string refl,
        )
    add_string_read true tmp input output usable (hb, h) =
        let few = codes_longer input.bytes in
        let (body, size, pad, e, stream, padding, _, more, hs, reads) =
          encode_read tables input.bytes tmp.buffer.has_memory tmp.size hb usable.1
            (omega (arith, few)) (room (length input.bytes) tmp.size usable.0) in
        let coded : Buffer = record { bytes = body; has_memory = true } in
        let short : length body < 127 = omega (
          arith,
          padding,
          ap length stream,
          length-append (codes_bits codes input.bytes) pad,
          length-bits_of_bytes body,
        ) in
        let (output', e', s) = compose_lem 1 coded output (omega arith) short in
        (
          record { buffer = coded; size = size },
          output',
          string_of 1 body,
          rw (e, e') refl,
          (omega (arith, usable.0), hs),
          s,
          omega arith,
          λ b suf string small is.
              let (c, d) = reads string true in
              parse_coded b output.bytes body suf 1 short small
                (split_block b.bytes output.bytes body suf 1 output'.bytes s is) decode_table string
                (Buffer.add string input.bytes) c refl d,
        )
