-- ===== src/Buffer/Hex/Tests.antt =====
-- Hexadecimal text: runs.
use libhpack.Common.{◌∷◌, [], ◌≡◌, refl, arith, true, false}
use libhpack.Buffer.{Buffer, Sized}
use libhpack.Common.Run.{done}
use libhpack.Buffer.Hex.{encode_hex, decode_hex}
use libhpack.Buffer.Hex.RoundTrip.{decode_hex-encode_hex}

abbrev three : Buffer
three = record { bytes = 0x00 ∷ 0xa9 ∷ 0xff ∷ []; has_memory = true }

abbrev fresh : Sized
fresh = record { buffer = record { bytes = []; has_memory = false }; size = 0 }

text_of :
    encode_hex three fresh
    ≡ done (record {
      buffer = record { bytes = 48 ∷ 48 ∷ 97 ∷ 57 ∷ 102 ∷ 102 ∷ []; has_memory = true };
      size = 7;
    })
unfolding encode_hex
text_of = refl

-- "0aZZ12": the decoding stops at the third character, and two characters of the text stay behind
-- the byte that was made.
stopped :
    decode_hex (record { bytes = 48 ∷ 97 ∷ 90 ∷ 90 ∷ 49 ∷ 50 ∷ []; has_memory = true })
    ≡ record { bytes = 10 ∷ 97 ∷ 90 ∷ []; has_memory = true }
unfolding decode_hex
stopped = refl

decode_hex-encode_hex_example :
    (text : Sized) × (encode_hex three fresh ≡ done text) × (decode_hex text.buffer ≡ three)
decode_hex-encode_hex_example = decode_hex-encode_hex three fresh (omega arith) (omega arith)
