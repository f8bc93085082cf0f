-- ===== src/Huffman/Tests.antt =====
-- The theorems with small tables.
use libhpack.Common.{ℕ, ◌<◌, ◌≡◌, arith, Bool, List, [], ◌∷◌, ◌++◌, some, true, false, length, All}
use libhpack.Integer.Decode.{IsByte}
use libhpack.Common.Ret.{ok}
use libhpack.Common.Run.{done}
use libhpack.Buffer
use libhpack.Common.{inr, ◌≤◌, ◌^◌}
use libhpack.Common.{◌-◌}
use libhpack.Common.Run.{fault}
use libhpack.Huffman.Encoder.{Code, encode}
use libhpack.Huffman.Encoder.Overrun
use libhpack.Huffman.Encoder.Overrun.{encode_overrun}
use libhpack.Huffman.Encoder.Pending.{bits_of_bytes}
use libhpack.Huffman.Encoder.Stream.{encode-stream, code_bits, codes_bits}
use libhpack.Huffman.RoundTrip.{decode-encode-AreTables}
use libhpack.Buffer.{Buffer, Sized}
use libhpack.Huffman.{Entry, DecodeContext, decode}
use libhpack.Huffman.Octets.{octet_codes, octet_table, octet_tables}

-- Every four bits are a symbol, and the state counts them.
abbrev plain : ℕ → ℕ → Entry
plain state c = record { state = some state; flags = 3; sym = c }

abbrev nothing : Buffer
nothing = record { bytes = []; has_memory = false }

abbrev start : DecodeContext
start = record { state = 0; accept = true }

abbrev fresh : Sized
fresh = record { buffer = nothing; size = 16 }

encode-stream_example :
    (bytes : List ℕ) × (size : ℕ) × (pad : List Bool) × (rest : List Bool) × (encode octet_codes
        (7 ∷ 200 ∷ [])
        fresh
      ≡ done (ok, record { buffer = record { bytes = bytes; has_memory = true }; size = size }))
    × (bits_of_bytes bytes ≡ bits_of_bytes [] ++ (codes_bits octet_codes (7 ∷ 200 ∷ []) ++ pad))
    × (length pad < 8)
    × (pad ++ rest ≡ code_bits octet_codes 256)
    × All IsByte bytes
    × (16 ≤ size)
    × (size < 2 ^ 32)
encode-stream_example =
    encode-stream octet_codes octet_tables.codes_fit (7 ∷ 200 ∷ []) fresh tt (omega arith)
      (omega arith) (omega arith) (inr (omega arith))

decode-encode-AreTables_example :
    (coded : Sized) × (c : DecodeContext) × (encode octet_codes (7 ∷ 200 ∷ []) fresh
      ≡ done (ok, coded))
    × (decode octet_table coded.buffer.bytes nothing start
        ≡ (ok, Buffer.add nothing (7 ∷ 200 ∷ []), c))
decode-encode-AreTables_example =
    decode-encode-AreTables octet_tables (7 ∷ 200 ∷ []) false 16 nothing true (ground arith)
      (omega arith) (omega arith) (inr (omega arith))

-- Codes of 30 bits, as HPACK has them for the rarest octets.
abbrev long_codes : ℕ → Code
long_codes x = record { bits = 30; code = 2 ^ 30 - 1 }

encode_overrun_example : encode long_codes (10 ∷ []) Overrun.fresh ≡ fault
encode_overrun_example = encode_overrun long_codes 10 (omega arith)
