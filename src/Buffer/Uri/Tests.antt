-- ===== src/Buffer/Uri/Tests.antt =====
-- URIs: runs.
use libhpack.Common.{ℕ, ◌∷◌, [], ◌≡◌, refl, true, Bool, leb, ◌&&◌, ◌||◌}
use libhpack.Buffer.{Buffer, Sized}
use libhpack.Common.Run.{done}
use libhpack.Common.{false}
use libhpack.Buffer.Uri.{escape_uri, escape_with_table, unescape_uri}
use libhpack.Common.{arith}
use libhpack.Buffer.Uri.{hex_char}
use libhpack.Common.{◌<◌}
use libhpack.Buffer.Uri.RoundTrip.{unescape_uri-escape_with_table}
use libhpack.Buffer.Uri.{is_char_escaped}

abbrev isxdigit : ℕ → Bool
isxdigit c = (leb 48 c && leb c 57) || (leb 65 c && leb c 70) || (leb 97 c && leb c 102)

-- "a b%"
abbrev text : Buffer
text = record { bytes = 97 ∷ 32 ∷ 98 ∷ 37 ∷ []; has_memory = true }

abbrev fresh : Sized
fresh = record { buffer = record { bytes = []; has_memory = false }; size = 0 }

text_of :
    escape_with_table fresh text escape_uri
    ≡ done (record {
      buffer = record { bytes = 97 ∷ 37 ∷ 50 ∷ 48 ∷ 98 ∷ 37 ∷ 50 ∷ 53 ∷ []; has_memory = true };
      size = 11;
    })
unfolding escape_with_table
text_of = refl

-- The first byte of a character of two bytes, and "%41" behind it: the `%` is not escaped, and the
-- way back makes another text.
abbrev cut : Buffer
cut = record { bytes = 0xc3 ∷ 37 ∷ 52 ∷ 49 ∷ []; has_memory = true }

cut_back :
    (escape_with_table fresh cut escape_uri
      ≡ done (record { buffer = record { bytes = cut.bytes; has_memory = true }; size = 5 }))
    × ((unescape_uri isxdigit cut).bytes ≡ 0xc3 ∷ 65 ∷ [])
unfolding escape_with_table unescape_uri
cut_back = (refl, refl)

digits : (d : ℕ) → d < 16 → isxdigit (hex_char d) ≡ true
digits d h = ground arith

unescape_uri-escape_with_table_example :
    (out : Sized) × (escape_with_table fresh text escape_uri ≡ done out)
    × ((unescape_uri isxdigit out.buffer).bytes ≡ text.bytes)
unescape_uri-escape_with_table_example =
    unescape_uri-escape_with_table isxdigit digits fresh text escape_uri refl
      (unfold is_char_escaped in refl) (omega arith) (omega arith)
