-- ===== src/Integer/Tests.antt =====
-- Runs of the integer code on the examples of the specification.
use libhpack.Common.{ℕ, ◌+◌, ◌≡◌, refl, arith, List, [], ◌∷◌, ◌++◌, length, drop, All, some, lt_wf}
use libhpack.Common.Ret.{ok}
use libhpack.Integer.{encode, decode}
use libhpack.Integer.Vlq.{octets, prefix_of, tail_of}
use libhpack.Integer.Encode.{encode_lem}
use libhpack.Integer.Decode.{IsByte, answer, decode-answer}
use libhpack.Integer.RoundTrip.{decode-encode}
use native.Mathlib.Decide.{dec_le}

encode_1337 : encode 5 1337 (0xe0 ∷ 0 ∷ 0 ∷ 7 ∷ []) ≡ some (ok, 0xff ∷ 154 ∷ 10 ∷ 7 ∷ [], 3)
unfolding encode lt_wf dec_le
encode_1337 = refl

decode_1337 : decode 5 (0x1f ∷ 154 ∷ 10 ∷ 7 ∷ []) 4 0 ≡ some (ok, 1337, 3)
unfolding decode
decode_1337 = refl

abbrev memory : List ℕ
memory = 0 ∷ 0 ∷ 7 ∷ []

memory-IsByte : All IsByte memory
memory-IsByte = omega arith

decode-encode_example :
    (mem : List ℕ) × (used : ℕ) × (encode 5 1337 (0xe0 ∷ memory) ≡ some (ok, mem, used))
    × (decode 5 mem 4 0 ≡ some (ok, 1337, used))
decode-encode_example =
    decode-encode 5 1337 0xe0 4 0 memory (omega arith) (omega arith) (omega arith) memory-IsByte
      (unfold tail_of octets lt_wf dec_le in omega arith) (omega arith)

decode-answer_example :
    decode 5 (0x1f ∷ 154 ∷ 10 ∷ 7 ∷ []) 4 0 ≡ answer 5 (154 ∷ 10 ∷ 7 ∷ []) 3 31 0
decode-answer_example =
    decode-answer 5 0x1f 4 0 (154 ∷ 10 ∷ 7 ∷ []) (omega arith) (omega arith) (omega arith)
      (omega arith)

encode_lem_example :
    encode 5 1337 (0xe0 ∷ memory)
    ≡ some (
      ok,
      (224 + prefix_of 5 1337) ∷ (tail_of 5 1337 ++ drop (length (tail_of 5 1337)) memory),
      1 + length (tail_of 5 1337),
    )
encode_lem_example =
    encode_lem 5 1337 0xe0 memory (omega arith) (omega arith) (omega arith)
      (unfold tail_of octets lt_wf dec_le in omega arith)
