-- ===== src/Buffer/Base64/RoundTrip.antt =====
-- What the encoder makes, the decoder reads back.
use libhpack.Common.{ℕ, ◌+◌, ◌*◌, ◌/◌, ◌%◌, ◌^◌, ◌<◌, ◌≡◌, ◌∙◌, refl, ap, arith, bit_and, bit_or}
use libhpack.Common.{List, [], ◌∷◌, ◌++◌, length, All, some, true, false, ◌==◌, if◌then◌else◌}
use libhpack.Common.{bit_and_low, bit_or_lt, same_below_both, holds_below}
use libhpack.Integer.Decode.{IsByte}
use libhpack.Buffer
use libhpack.Buffer.{Buffer, Sized, ensure_size, ensure_size_least}
use libhpack.Common.Run.{done}
use libhpack.Common.{◌≤◌, ltb, lt→ltb}
use libhpack.Buffer.Base64.{
  base64_char, b64_decode, encode_loop, encode_base64, decode_base64, digit_bytes,
}
use libhpack.Buffer.Base64.InPlace.{decoded, decoded-some, decode_base64-decoded}

char_back : (n : ℕ) → n < 64 → b64_decode (base64_char n) ≡ some n
unfolding b64_decode
char_back n h = ground arith

-- The digits that stand for the bits of two neighbours.
abbrev second : ℕ → ℕ → ℕ
second a b = bit_or (bit_and a 3 * 2 ^ 4) (b / 2 ^ 4)

abbrev third : ℕ → ℕ → ℕ
third b c = bit_or (bit_and b 15 * 2 ^ 2) (c / 2 ^ 6)

second_small : (a b : ℕ) → b < 256 → second a b < 64
second_small a b h =
    bit_or_lt 6 (bit_and a 3 * 2 ^ 4) (b / 2 ^ 4) (omega (arith, bit_and_low 2 a)) (omega arith)

third_small : (b c : ℕ) → c < 256 → third b c < 64
third_small b c h =
    bit_or_lt 6 (bit_and b 15 * 2 ^ 2) (c / 2 ^ 6) (omega (arith, bit_and_low 4 b)) (omega arith)

first_byte : (a b : ℕ) → a < 256 → b < 256 → digit_bytes 1 (a / 2 ^ 2) (second a b) ≡ a ∷ []
first_byte a b ha hb =
    ap (λ x. x ∷ [])
      (same_below_both 256 16
        (λ x h.
          bit_or (x / 2 ^ 2 * 2 ^ 2) (bit_and (bit_or (bit_and x 3 * 2 ^ 4) h) 0x30 / 2 ^ 4)
          % 2 ^ 8)
        (λ x h. x) (unfold holds_below in refl) a (b / 2 ^ 4) ha (omega arith))

second_byte : (a b c : ℕ) → b < 256 → c < 256 → digit_bytes 2 (second a b) (third b c) ≡ b ∷ []
second_byte a b c hb hc =
    let k = bit_and a 3 * 4 + c / 2 ^ 6 in
    let low = bit_and_low 2 a in
    let left : (bit_and a 3 * 4 + c / 2 ^ 6) / 4 ≡ bit_and a 3 = omega (arith, low) in
    let right : (bit_and a 3 * 4 + c / 2 ^ 6) % 4 ≡ c / 2 ^ 6 = omega (arith, low) in
    let tabled =
      same_below_both 16 256
        (λ k y.
          bit_or (bit_and (bit_or (k / 4 * 2 ^ 4) (y / 2 ^ 4)) 0xf * 2 ^ 4)
            (bit_and (bit_or (bit_and y 15 * 2 ^ 2) (k % 4)) 0x3c / 2 ^ 2)
          % 2 ^ 8)
        (λ k y. y) (unfold holds_below in refl) (bit_and a 3 * 4 + c / 2 ^ 6) b (omega (arith, low))
        hb in
    ap (λ x. x ∷ []) (rw (left, right) at tabled)

third_byte : (b c : ℕ) → b < 256 → c < 256 → digit_bytes 3 (third b c) (bit_and c 63) ≡ c ∷ []
third_byte b c hb hc =
    ap (λ x. x ∷ [])
      (same_below_both 16 256
        (λ l y.
          bit_or (bit_and (bit_or (l * 2 ^ 2) (y / 2 ^ 6)) 0x03 * 2 ^ 6) (bit_and y 63) % 2 ^ 8)
        (λ l y. y) (unfold holds_below in refl) (bit_and b 15) c (omega (arith, bit_and_low 4 b))
        hc)

-- A digit, in the phase that it is read in.
digit :
    (phase prev_d n : ℕ) (rest : List ℕ)
    → n < 64
    → decoded phase prev_d (base64_char n ∷ rest)
      ≡ digit_bytes phase prev_d n ++ decoded (if phase == 3 then 0 else phase + 1) n rest
digit phase prev_d n rest h = decoded-some phase prev_d (base64_char n) n rest (char_back n h)

-- The digits of a byte and its neighbour, and each digit behind them.
one_more :
    (prev_d a b : ℕ) (rest : List ℕ)
    → a < 256
    → b < 256
    → decoded 0 prev_d (base64_char (a / 2 ^ 2) ∷ base64_char (second a b) ∷ rest)
      ≡ a ∷ decoded 2 (second a b) rest
one_more prev_d a b rest ha hb =
    digit 0 prev_d (a / 2 ^ 2) (base64_char (second a b) ∷ rest) (omega arith)
    ∙ digit 1 (a / 2 ^ 2) (second a b) rest (second_small a b hb)
    ∙ ap (λ t. t ++ decoded 2 (second a b) rest) (first_byte a b ha hb)

two_more :
    (a b c : ℕ) (rest : List ℕ)
    → b < 256
    → c < 256
    → decoded 2 (second a b) (base64_char (third b c) ∷ rest) ≡ b ∷ decoded 3 (third b c) rest
two_more a b c rest hb hc =
    digit 2 (second a b) (third b c) rest (third_small b c hc)
    ∙ ap (λ t. t ++ decoded 3 (third b c) rest) (second_byte a b c hb hc)

three_more :
    (b c : ℕ) (rest : List ℕ)
    → b < 256
    → c < 256
    → decoded 3 (third b c) (base64_char (bit_and c 63) ∷ rest) ≡ c ∷ decoded 0 (bit_and c 63) rest
three_more b c rest hb hc =
    digit 3 (third b c) (bit_and c 63) rest (omega (arith, bit_and_low 6 c))
    ∙ ap (λ t. t ++ decoded 0 (bit_and c 63) rest) (third_byte b c hb hc)

decoded-encode_loop :
    (xs : List ℕ) (prev_d : ℕ) → All IsByte xs → decoded 0 prev_d (encode_loop xs) ≡ xs
unfolding encode_loop b64_decode
decoded-encode_loop [] prev_d hs = refl
decoded-encode_loop (a ∷ []) prev_d (ha, hs) = one_more prev_d a 0 (61 ∷ 61 ∷ []) ha (omega arith)
decoded-encode_loop (a ∷ b ∷ []) prev_d (ha, (hb, hs)) =
    one_more prev_d a b (base64_char (third b 0) ∷ 61 ∷ []) ha hb
    ∙ ap (λ t. a ∷ t) (two_more a b 0 (61 ∷ []) hb (omega arith))
decoded-encode_loop (a ∷ b ∷ c ∷ rest) prev_d (ha, (hb, (hc, hs))) =
    one_more prev_d a b (base64_char (third b c) ∷ base64_char (bit_and c 63) ∷ encode_loop rest) ha
      hb
    ∙ ap (λ t. a ∷ t)
        (two_more a b c (base64_char (bit_and c 63) ∷ encode_loop rest) hb hc
          ∙ ap (λ t. b ∷ t)
              (three_more b c (encode_loop rest) hb hc
                ∙ ap (λ t. c ∷ t) (decoded-encode_loop rest (bit_and c 63) hs)))

-- Three bytes at most take four characters.
length-encode_loop : (xs : List ℕ) → 3 * length (encode_loop xs) ≤ 4 * (length xs + 2)
unfolding encode_loop
length-encode_loop [] = omega arith
length-encode_loop (a ∷ []) = omega arith
length-encode_loop (a ∷ b ∷ []) = omega arith
length-encode_loop (a ∷ b ∷ c ∷ rest) = omega (arith, length-encode_loop rest)

-- The bytes of a buffer that is not empty, fewer than 2 ^ 30 less four, are encoded without a write
-- outside the memory, whatever the other buffer is, and of the text `chula_buffer_decode_base64`
-- makes these bytes again, in place.
pub decode_base64-encode_base64 :
    (b : Buffer) (encoded : Sized)
    → All IsByte b.bytes
    → 0 < length b.bytes
    → length b.bytes + 4 < 2 ^ 30
    → (text : Sized) × (encode_base64 b encoded ≡ done text)
      × (decode_base64 text.buffer ≡ record { bytes = b.bytes; has_memory = true })
unfolding encode_base64 Buffer.is_empty
decode_base64-encode_base64 b encoded hs some_bytes small =
    let n = length b.bytes in
    let full : (n == 0) ≡ false = ground arith in
    let wanted : ((n + 4) % 2 ^ 32 * 4 % 2 ^ 32 / 3 + 1) % 2 ^ 32 ≡ (n + 4) * 4 / 3 + 1 =
      omega arith in
    let asked = ((n + 4) % 2 ^ 32 * 4 % 2 ^ 32 / 3 + 1) % 2 ^ 32 in
    let size = ensure_size encoded.size asked in
    let least = ensure_size_least encoded.size asked (omega arith) in
    let fits : ltb (length (encode_loop b.bytes)) size ≡ true =
      lt→ltb (length (encode_loop b.bytes)) size
        (omega (arith, least, wanted, length-encode_loop b.bytes)) in
    let text : Buffer = record { bytes = encode_loop b.bytes; has_memory = true } in
    (
      record { buffer = text; size = size },
      rw (full, fits) refl,
      decode_base64-decoded text
          ∙ ap (λ t. let m : Buffer = record { bytes = t; has_memory = true } in m)
              (decoded-encode_loop b.bytes 0 hs),
    )
