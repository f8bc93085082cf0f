-- ===== src/Buffer/Base64/Tests.antt =====
-- Base64 text: runs.
use libhpack.Common.{◌∷◌, [], ◌≡◌, refl, true}
use libhpack.Buffer.{Buffer, Sized}
use libhpack.Common.Run.{done}
use libhpack.Common.{false}
use libhpack.Buffer.Base64.{encode_base64, decode_base64}
use libhpack.Common.{arith}
use libhpack.Buffer.Base64.RoundTrip.{decode_base64-encode_base64}

-- "Man M"
abbrev text : Buffer
text = record { bytes = 77 ∷ 97 ∷ 110 ∷ 32 ∷ 77 ∷ []; has_memory = true }

abbrev fresh : Sized
fresh = record { buffer = record { bytes = []; has_memory = false }; size = 0 }

text_of :
    encode_base64 text fresh
    ≡ done (record {
      buffer = record { bytes = 84 ∷ 87 ∷ 70 ∷ 117 ∷ 73 ∷ 69 ∷ 48 ∷ 61 ∷ []; has_memory = true };
      size = 13;
    })
unfolding encode_base64
text_of = refl

decode_base64-encode_base64_example :
    (coded : Sized) × (encode_base64 text fresh ≡ done coded) × (decode_base64 coded.buffer ≡ text)
decode_base64-encode_base64_example =
    decode_base64-encode_base64 text fresh (omega arith) (omega arith) (omega arith)

-- "TW\nFu"
abbrev broken_text : Buffer
broken_text = record { bytes = 84 ∷ 87 ∷ 10 ∷ 70 ∷ 117 ∷ []; has_memory = true }
