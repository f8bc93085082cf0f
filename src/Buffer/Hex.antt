-- ===== src/Buffer/Hex.antt =====
-- libchula/buffer.c: hexadecimal text. Memory is taken to be granted.
pub mod RoundTrip
mod Tests
use libhpack.Common.{
  ℕ, zero, suc, ◌+◌, ◌-◌, ◌*◌, ◌/◌, ◌%◌, ◌^◌, bit_and, bit_or, List, [], ◌∷◌, length, take,
}
use libhpack.Common.{
  Bool, true, not, ◌&&◌, Option, none, some, ltb, leb, if◌then◌else◌, get_elem?, store,
}
use libhpack.Buffer
use libhpack.Buffer.{Buffer, Sized, ensure_size}
use libhpack.Common.Run.{Run, done, fault}

-- `TO_HEX`
abbrev pub to_hex : ℕ → ℕ
to_hex c = if ltb 9 c then c + 97 - 10 else c + 48

-- The loop of `chula_buffer_encode_hex`.
unfoldable pub encode_loop : List ℕ → List ℕ
encode_loop [] = []
encode_loop (x ∷ xs) = to_hex (bit_and (x / 2 ^ 4) 0xf) ∷ to_hex (bit_and x 0xf) ∷ encode_loop xs

-- `chula_buffer_encode_hex`: what becomes of `encoded`. The sizes are 32-bit numbers; a text that
-- does not fit the memory with its NUL is written behind it.
unfoldable pub encode_hex : Buffer → Sized → Run Sized
unfolding encode_loop
encode_hex b encoded =
    let inlen = length b.bytes in
    let size = ensure_size encoded.size ((inlen * 2 + 1) % 2 ^ 32) in
    let text = encode_loop b.bytes in
    if not (ltb (length text) size)
    then fault
    else done (record {
      buffer = record { bytes = take (inlen * 2 % 2 ^ 32) text; has_memory = true };
      size = size;
    })

-- The table `hex_to_bin`, for a character below 128; `none` is its -1, for a `char` with a sign.
abbrev pub hex_to_bin : ℕ → Option ℕ
hex_to_bin c =
    if leb 48 c && leb c 57
    then some (c - 48)
    else if leb 65 c && leb c 70
    then some (c - 55)
    else if leb 97 c && leb c 102
    then some (c - 87)
    else none

-- A byte that is made of two digits.
abbrev joined : ℕ → ℕ → ℕ
joined b1 b2 = bit_or (bit_and (b1 * 2 ^ 4) 0xf0) (bit_and b2 0x0f)

-- `buf->buf[i] = byte`
abbrev stored : List ℕ → ℕ → ℕ → List ℕ
stored mem i byte = elim (store mem i byte) [ none ↦ mem | some mem' ↦ mem' ]

-- The digit at `i`, if there is one.
abbrev digit_at : List ℕ → ℕ → Option ℕ
digit_at mem i = elim (get_elem? mem i) [ none ↦ none | some c ↦ hex_to_bin (bit_and c 127) ]

-- The loop of `chula_buffer_decode_hex`, in place, `left` rounds before its end.
unfoldable pub decode_loop : ℕ → ℕ → List ℕ → List ℕ
decode_loop zero i mem = mem
decode_loop (suc left) i mem = elim (digit_at mem (2 * i)) [
  | none ↦ mem
  | some b1 ↦ elim (digit_at mem (2 * i + 1)) [
    | none ↦ mem
    | some b2 ↦ decode_loop left (i + 1) (stored mem i (joined b1 b2))
  ]
]

-- `chula_buffer_decode_hex`. The length is halved wherever the loop stopped.
unfoldable pub decode_hex : Buffer → Buffer
unfolding decode_loop Buffer.is_empty
decode_hex b = if Buffer.is_empty b then b else record {
  bytes = take (length b.bytes / 2) (decode_loop (length b.bytes / 2) 0 b.bytes);
  has_memory = b.has_memory;
}
