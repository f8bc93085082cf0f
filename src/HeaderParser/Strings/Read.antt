-- ===== src/HeaderParser/Strings/Read.antt =====
-- A string that stands in a block, as it is read.
use libhpack.Common.{
  ℕ, zero, suc, ◌+◌, ◌-◌, ◌*◌, ◌%◌, ◌^◌, ◌<◌, ◌≡◌, refl, ap, ◌∙◌, arith, Bool, true, false, not,
  List, [], ◌∷◌, ◌++◌, some, length, take, drop, ltb, leb, ◌==◌, bit_and, get_elem?,
}
use libhpack.Common.{
  length-append, get_elem?-append, drop-append, take-append, bit_and_low, bit_and_high,
}
use libhpack.Common.Ret.{ok}
use libhpack.Common.Run.{done, checked}
use libhpack.Buffer
use libhpack.Buffer.{Buffer}
use libhpack.Huffman
use libhpack.Huffman.{Entry, DecodeContext}
use libhpack.Integer
use libhpack.HeaderParser.Strings.{
  memory, peek, slice, decode_at, copy_string, string_at, parse_string,
}
use mathlib.Core.List.{append_assoc}

-- A string of fewer than 127 octets, with the bit for Huffman codes in `high`.
abbrev pub string_of : ℕ → List ℕ → List ℕ
string_of high body = (high * 128 + length body) ∷ body

-- A number below the largest one of its prefix.
decode_short :
    (first : ℕ) (rest : List ℕ) (left v : ℕ)
    → bit_and first 127 ≡ v
    → v < 127
    → Integer.decode 7 (first ∷ rest) left 0 ≡ some (ok, v, 1)
unfolding Integer.decode
decode_short first rest left v e h = ground arith

top_bit : (high n : ℕ) → n < 127 → (bit_and (high * 128 + n) 127 ≡ n)
top_bit high n h = omega (arith, bit_and_low 7 (high * 128 + n))

module _ (b : Buffer) (pre body suf : List ℕ) (high : ℕ) (short : length body < 127)
    (small : length b.bytes < 2 ^ 31) (is : b.bytes ≡ pre ++ (string_of high body ++ suf)) where
  -- The memory from the string on.
  in_memory : memory b ≡ pre ++ (string_of high body ++ (suf ++ (0 ∷ [])))
  in_memory =
      ap (λ t. t ++ (0 ∷ [])) is
      ∙ append_assoc pre (string_of high body ++ suf) (0 ∷ [])
      ∙ ap (λ t. pre ++ t) (append_assoc (string_of high body) suf (0 ∷ []))

  size : length b.bytes ≡ length pre + (1 + length body + length suf)
  size =
      omega (
        arith,
        ap length is,
        length-append pre (string_of high body ++ suf),
        length-append body suf,
      )

  peeked : peek b (length pre) ≡ done (high * 128 + length body)
  peeked = ap checked (ap (λ t. get_elem? t (length pre)) in_memory ∙ get_elem?-append pre _ _)

  sized : decode_at b 7 (length pre) ≡ done (ok, length body, 1)
  sized =
      let left = (length b.bytes + 2 ^ 32 - length pre) % 2 ^ 32 % 256 in
      ap checked (
        ap (λ t. Integer.decode 7 t left 0) (ap (drop (length pre)) in_memory ∙ drop-append pre _)
        ∙ decode_short (high * 128 + length body) (body ++ (suf ++ (0 ∷ []))) left (length body)
            (top_bit high (length body) short) short)

  taken : take (length body) (drop (length pre + 1) (memory b)) ≡ body
  taken = ap (λ t. take (length body) t) from_body ∙ take-append body _
    where
      longer : (pre ys : List ℕ) (x j : ℕ) → j ≡ length pre + 1 → drop j (pre ++ (x ∷ ys)) ≡ ys
      longer pre ys x zero e = absurd (omega arith)
      longer [] ys x (suc zero) e = refl
      longer [] ys x (suc (suc j)) e = absurd (omega arith)
      longer (p ∷ pre) ys x (suc j) e = longer pre ys x j (omega arith)

      from_body : drop (length pre + 1) (memory b) ≡ body ++ (suf ++ (0 ∷ []))
      from_body = ap (drop (length pre + 1)) in_memory ∙ longer pre _ _ (length pre + 1) refl

  copied : slice b (length pre + 1) (length body) ≡ done body
  copied =
      let fits : leb (length pre + 1 + length body) (length b.bytes + 1) ≡ true =
        ground (arith, size) in
      rw fits (ap done taken)

  module _ (decode_table : ℕ → ℕ → Entry) (string : Buffer) where
    at_string :
        (huffman : Bool) (out : Buffer)
        → copy_string decode_table b (length pre + 1) (length body) string huffman ≡ done (ok, out)
        → string_at decode_table b (length pre) string huffman ok (length body) 1
          ≡ done (ok, out, huffman, suc (length body))
    unfolding string_at
    at_string huffman out e =
        let n : (length pre + 1) % 2 ^ 32 ≡ length pre + 1 = omega (arith, size) in
        let within : ltb (length b.bytes) ((length pre + 1 + length body) % 2 ^ 32) ≡ false =
          ground (arith, size) in
        rw (n, within, e) (ap (λ k. done (ok, out, huffman, k)) (omega (arith, size)))

    found :
        (huffman : Bool) (out : Buffer)
        → (not (bit_and (high * 128 + length body) 128 == 0)) ≡ huffman
        → copy_string decode_table b (length pre + 1) (length body) string huffman ≡ done (ok, out)
        → parse_string decode_table b (length pre) string
          ≡ done (ok, out, huffman, suc (length body))
    unfolding parse_string
    found huffman out flag e = rw (peeked, sized, flag) (at_string huffman out e)

    -- A plain string is added to `string`.
    pub parse_plain :
        high ≡ 0
        → parse_string decode_table b (length pre) string
          ≡ done (ok, Buffer.add string body, false, suc (length body))
    unfolding copy_string
    parse_plain plain =
        found false (Buffer.add string body)
          (ground (arith, bit_and_high 7 (high * 128 + length body))) (rw copied refl)

    -- A coded one is decoded.
    pub parse_coded :
        (out : Buffer) (c : DecodeContext)
        → high ≡ 1
        → Huffman.decode decode_table body string (record { state = 0; accept = true })
          ≡ (ok, out, c)
        → parse_string decode_table b (length pre) string ≡ done (ok, out, true, suc (length body))
    unfolding copy_string
    parse_coded out c coded e =
        found true out (ground (arith, bit_and_high 7 (high * 128 + length body)))
          (rw (copied, taken, e) refl)
