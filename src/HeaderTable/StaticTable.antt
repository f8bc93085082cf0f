-- ===== src/HeaderTable/StaticTable.antt =====
-- libhpack/header_table.c, the static table.
use libhpack.Common.{ℕ, List, [], ◌∷◌, true, false}
use libhpack.HeaderField.{Flags, Field, is_indexed_static, rep_indexed}
use libhpack.Buffer.{Buffer}
use Prim.Native.Char.{code}
use Prim.Native.String.{String}

-- The bytes of a text, which is ASCII.
abbrev pub codes : String → List ℕ
codes String.[] = []
codes (String.◌∷◌ c s) = code c ∷ codes s

-- `CHULA_BUF_INIT_FAKE`
abbrev text : String → Buffer
text s = record { bytes = codes s; has_memory = true }

abbrev static_flags : Flags
static_flags = record { name = is_indexed_static; value = is_indexed_static; rep = rep_indexed }

-- `HDR_NIL` and `HDR_VAL`
abbrev hdr_nil : String → Field
hdr_nil s = record {
  flags = static_flags;
  name = text s;
  value = record { bytes = []; has_memory = false };
}

abbrev hdr_val : String → String → Field
hdr_val n v = record { flags = static_flags; name = text n; value = text v }

-- `STATIC_ENTRIES`
abbrev pub static_entries : ℕ
static_entries = 61

-- `static_table`
unfoldable pub static_table : List Field
static_table =
    hdr_nil ":authority"
    ∷ hdr_val ":method" "GET"
    ∷ hdr_val ":method" "POST"
    ∷ hdr_val ":path" "/"
    ∷ hdr_val ":path" "/index.html"
    ∷ hdr_val ":scheme" "http"
    ∷ hdr_val ":scheme" "https"
    ∷ hdr_val ":status" "200"
    ∷ hdr_val ":status" "204"
    ∷ hdr_val ":status" "206"
    ∷ hdr_val ":status" "304"
    ∷ hdr_val ":status" "400"
    ∷ hdr_val ":status" "404"
    ∷ hdr_val ":status" "500"
    ∷ hdr_nil "accept-charset"
    ∷ hdr_nil "accept-encoding"
    ∷ hdr_nil "accept-language"
    ∷ hdr_nil "accept-ranges"
    ∷ hdr_nil "accept"
    ∷ hdr_nil "access-control-allow-origin"
    ∷ hdr_nil "age"
    ∷ hdr_nil "allow"
    ∷ hdr_nil "authorization"
    ∷ hdr_nil "cache-control"
    ∷ hdr_nil "content-disposition"
    ∷ hdr_nil "content-encoding"
    ∷ hdr_nil "content-language"
    ∷ hdr_nil "content-length"
    ∷ hdr_nil "content-location"
    ∷ hdr_nil "content-range"
    ∷ hdr_nil "content-type"
    ∷ hdr_nil "cookie"
    ∷ hdr_nil "date"
    ∷ hdr_nil "etag"
    ∷ hdr_nil "expect"
    ∷ hdr_nil "expires"
    ∷ hdr_nil "from"
    ∷ hdr_nil "host"
    ∷ hdr_nil "if-match"
    ∷ hdr_nil "if-modified-since"
    ∷ hdr_nil "if-none-match"
    ∷ hdr_nil "if-range"
    ∷ hdr_nil "if-unmodified-since"
    ∷ hdr_nil "last-modified"
    ∷ hdr_nil "link"
    ∷ hdr_nil "location"
    ∷ hdr_nil "max-forwards"
    ∷ hdr_nil "proxy-authenticate"
    ∷ hdr_nil "proxy-authorization"
    ∷ hdr_nil "range"
    ∷ hdr_nil "referer"
    ∷ hdr_nil "refresh"
    ∷ hdr_nil "retry-after"
    ∷ hdr_nil "server"
    ∷ hdr_nil "set-cookie"
    ∷ hdr_nil "strict-transport-security"
    ∷ hdr_nil "transfer-encoding"
    ∷ hdr_nil "user-agent"
    ∷ hdr_nil "vary"
    ∷ hdr_nil "via"
    ∷ hdr_nil "www-authenticate"
    ∷ []
