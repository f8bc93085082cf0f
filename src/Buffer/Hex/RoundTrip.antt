-- ===== src/Buffer/Hex/RoundTrip.antt =====
-- What the encoder makes, the decoder reads back.
use libhpack.Common.{ℕ, suc, ◌+◌, ◌*◌, ◌/◌, ◌^◌, ◌<◌, ◌≡◌, ◌∙◌, refl, sym, ap, arith, bit_and}
use libhpack.Common.{List, [], ◌∷◌, ◌++◌, length, All, length-append, get_elem?-append, take-append}
use libhpack.Common.{
  some, none, get_elem?, store-append, bit_and_low, same_below, holds_below, true, false, ◌==◌,
}
use mathlib.Core.List.{append_assoc, append-nil}
use libhpack.Integer.Decode.{IsByte}
use libhpack.Buffer
use libhpack.Buffer.{Buffer, Sized, ensure_size, ensure_size_least}
use libhpack.Common.Run.{done}
use libhpack.Common.{◌%◌, ltb, lt→ltb, take_all}
use libhpack.Buffer.Hex.{
  to_hex, encode_loop, encode_hex, hex_to_bin, joined, stored, digit_at, decode_loop, decode_hex,
}

digit_back : (d : ℕ) → d < 16 → hex_to_bin (bit_and (to_hex d) 127) ≡ some d
digit_back d h = ground (arith, bit_and_low 7 (to_hex d))

joined_back : (x : ℕ) → x < 256 → joined (bit_and (x / 2 ^ 4) 0xf) (bit_and x 0xf) ≡ x
joined_back =
    same_below 256 (λ x. joined (bit_and (x / 2 ^ 4) 0xf) (bit_and x 0xf)) (λ x. x)
      (unfold holds_below in refl)

length-encode_loop : (xs : List ℕ) → length (encode_loop xs) ≡ 2 * length xs
unfolding encode_loop
length-encode_loop [] = refl
length-encode_loop (x ∷ xs) = omega (arith, length-encode_loop xs)

digit_read :
    (mem before after : List ℕ) (d i : ℕ)
    → mem ≡ before ++ (to_hex d ∷ after)
    → i ≡ length before
    → d < 16
    → digit_at mem i ≡ some d
digit_read mem before after d i e place h =
    let there : get_elem? mem i ≡ some (to_hex d) =
      ap (get_elem? mem) place
      ∙ ap (λ m. get_elem? m (length before)) e
      ∙ get_elem?-append before (to_hex d) after in
    rw (digit_at, there) (digit_back d h)

-- A store where something was passed, or at the first digit, whose place is free once it is read.
stored_at :
    (done_bytes passed : List ℕ) (h l v : ℕ) (rest : List ℕ)
    → length passed ≡ length done_bytes
    → (passed' : List ℕ) × (stored (done_bytes ++ (passed ++ (h ∷ l ∷ rest))) (length done_bytes) v
        ≡ (done_bytes ++ (v ∷ [])) ++ (passed' ++ rest))
      × (length passed' ≡ suc (length done_bytes))
stored_at done_bytes [] h l v rest even = (
  l ∷ [],
  ap (λ o. elim o [ none ↦ done_bytes ++ (h ∷ l ∷ rest) | some m ↦ m ])
        (store-append done_bytes h v (l ∷ rest))
      ∙ sym (append_assoc done_bytes (v ∷ []) (l ∷ rest)),
  omega arith,
)
stored_at done_bytes (p ∷ ps) h l v rest even = (
  ps ++ (h ∷ l ∷ []),
  ap (λ o. elim o [ none ↦ done_bytes ++ (p ∷ (ps ++ (h ∷ l ∷ rest))) | some m ↦ m ])
        (store-append done_bytes p v (ps ++ (h ∷ l ∷ rest)))
      ∙ sym (append_assoc done_bytes (v ∷ []) (ps ++ (h ∷ l ∷ rest)))
      ∙ ap (λ t. (done_bytes ++ (v ∷ [])) ++ t) (sym (append_assoc ps (h ∷ l ∷ []) rest)),
  omega (arith, length-append ps (h ∷ l ∷ [])),
)

decode_round :
    (left i b1 b2 : ℕ) (mem : List ℕ)
    → digit_at mem (2 * i) ≡ some b1
    → digit_at mem (2 * i + 1) ≡ some b2
    → decode_loop (suc left) i mem ≡ decode_loop left (i + 1) (stored mem i (joined b1 b2))
unfolding decode_loop
decode_round left i b1 b2 mem e1 e2 = rw (decode_loop, e1, e2)

-- The loop on what is left of the text: `done_bytes` are those that it has made, and `passed` is
-- what it has read and not written.
loop_back :
    (xs done_bytes passed : List ℕ)
    → All IsByte xs
    → length passed ≡ length done_bytes
    → (behind : List ℕ) × (decode_loop
          (length xs)
          (length done_bytes)
          (done_bytes ++ (passed ++ encode_loop xs))
        ≡ (done_bytes ++ xs) ++ behind)
unfolding encode_loop decode_loop
loop_back [] done_bytes passed hs even = (
  passed,
  ap (λ t. done_bytes ++ t) (append-nil passed)
      ∙ ap (λ t. t ++ passed) (sym (append-nil done_bytes)),
)
loop_back (x ∷ xs) done_bytes passed (h, hs) even =
    let hi = bit_and (x / 2 ^ 4) 0xf in
    let lo = bit_and x 0xf in
    let mem = done_bytes ++ (passed ++ (to_hex hi ∷ to_hex lo ∷ encode_loop xs)) in
    let size = length-append done_bytes passed in
    let first : digit_at mem (2 * length done_bytes) ≡ some hi =
      digit_read mem (done_bytes ++ passed) (to_hex lo ∷ encode_loop xs) hi (2 * length done_bytes)
        (sym (append_assoc done_bytes passed (to_hex hi ∷ to_hex lo ∷ encode_loop xs)))
        (omega arith) (omega (arith, bit_and_low 4 (x / 2 ^ 4))) in
    let second : digit_at mem (2 * length done_bytes + 1) ≡ some lo =
      digit_read mem ((done_bytes ++ passed) ++ (to_hex hi ∷ [])) (encode_loop xs) lo
        (2 * length done_bytes + 1)
        (sym (append_assoc done_bytes passed (to_hex hi ∷ to_hex lo ∷ encode_loop xs))
          ∙ sym (append_assoc (done_bytes ++ passed) (to_hex hi ∷ []) (to_hex lo ∷ encode_loop xs)))
        (omega (arith, length-append (done_bytes ++ passed) (to_hex hi ∷ [])))
        (omega (arith, bit_and_low 4 x)) in
    let (passed', now, even') =
      stored_at done_bytes passed (to_hex hi) (to_hex lo) (joined hi lo) (encode_loop xs) even in
    let made : joined hi lo ≡ x = joined_back x h in
    let size' : length (done_bytes ++ (x ∷ [])) ≡ length done_bytes + 1 =
      length-append done_bytes (x ∷ []) in
    let (behind, later) = loop_back xs (done_bytes ++ (x ∷ [])) passed' hs (omega arith) in
    (
      behind,
      decode_round (length xs) (length done_bytes) hi lo mem first second
          ∙ ap (decode_loop (length xs) (length done_bytes + 1))
              (now ∙ ap (λ v. (done_bytes ++ (v ∷ [])) ++ (passed' ++ encode_loop xs)) made)
          ∙ ap
              (λ k.
                decode_loop (length xs) k ((done_bytes ++ (x ∷ [])) ++ (passed' ++ encode_loop xs)))
              (sym size')
          ∙ later
          ∙ ap (λ t. t ++ behind) (append_assoc done_bytes (x ∷ []) xs),
    )

-- Fewer than 2 ^ 31 bytes of a buffer are encoded without a write outside the memory, whatever the
-- other buffer is, and of the text `chula_buffer_decode_hex` makes these bytes again, in place.
pub decode_hex-encode_hex :
    (b : Buffer) (encoded : Sized)
    → All IsByte b.bytes
    → length b.bytes < 2 ^ 31
    → (text : Sized) × (encode_hex b encoded ≡ done text)
      × (decode_hex text.buffer ≡ record { bytes = b.bytes; has_memory = true })
unfolding encode_hex
decode_hex-encode_hex b encoded hs small =
    let n = length b.bytes in
    let wanted : (n * 2 + 1) % 2 ^ 32 ≡ n * 2 + 1 = omega arith in
    let whole : n * 2 % 2 ^ 32 ≡ length (encode_loop b.bytes) =
      omega (arith, length-encode_loop b.bytes) in
    let size = ensure_size encoded.size ((n * 2 + 1) % 2 ^ 32) in
    let least = ensure_size_least encoded.size ((n * 2 + 1) % 2 ^ 32) (omega arith) in
    let fits : ltb (length (encode_loop b.bytes)) size ≡ true =
      lt→ltb (length (encode_loop b.bytes)) size
        (omega (arith, least, wanted, length-encode_loop b.bytes)) in
    (
      record { buffer = record { bytes = encode_loop b.bytes; has_memory = true }; size = size },
      rw (fits, whole, take_all (encode_loop b.bytes)) refl,
      by_bytes b.bytes hs,
    )
  where
    by_bytes :
        (xs : List ℕ)
        → All IsByte xs
        → decode_hex (record { bytes = encode_loop xs; has_memory = true })
          ≡ record { bytes = xs; has_memory = true }
    by_bytes [] hs = unfold decode_hex Buffer.is_empty encode_loop in refl
    by_bytes (x ∷ xs) hs =
        let size : length (encode_loop (x ∷ xs)) / 2 ≡ suc (length xs) =
          omega (arith, length-encode_loop (x ∷ xs)) in
        let full : (length (encode_loop (x ∷ xs)) == 0) ≡ false =
          ground (arith, length-encode_loop (x ∷ xs)) in
        let (behind, e) = loop_back (x ∷ xs) [] [] hs refl in
        unfold decode_hex Buffer.is_empty in
        rw (full, size, e)
          (ap (λ t. let b : Buffer = record { bytes = t; has_memory = true } in b)
            (take-append (x ∷ xs) behind))
