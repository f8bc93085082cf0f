-- ===== src/Buffer/Base64.antt =====
-- libchula/buffer.c: base64 text. Memory is taken to be granted.
pub mod InPlace
pub mod RoundTrip
mod Tests
use libhpack.Common.{
  ℕ, zero, suc, ◌+◌, ◌-◌, ◌*◌, ◌/◌, ◌%◌, ◌^◌, bit_and, bit_or, List, [], ◌∷◌, ◌++◌, length, take,
}
use libhpack.Common.{
  Bool, true, not, ◌&&◌, ◌==◌, Option, none, some, ltb, leb, if◌then◌else◌, get_elem?, drop,
}
use libhpack.Buffer
use libhpack.Buffer.{Buffer, Sized, ensure_size}
use libhpack.Common.Run.{Run, done, fault}

-- `base64tab`, below 64.
abbrev pub base64_char : ℕ → ℕ
base64_char n =
    if ltb n 26
    then n + 65
    else if ltb n 52
    then n + 71
    else if ltb n 62
    then n - 4
    else if n == 62
    then 43
    else 47

-- The loop of `chula_buffer_encode_base64`, three bytes a round.
unfoldable pub encode_loop : List ℕ → List ℕ
encode_loop [] = []
encode_loop (a ∷ []) =
    base64_char (a / 2 ^ 2) ∷ base64_char (bit_or (bit_and a 3 * 2 ^ 4) (0 / 2 ^ 4)) ∷ 61 ∷ 61 ∷ []
encode_loop (a ∷ b ∷ []) =
    base64_char (a / 2 ^ 2)
    ∷ base64_char (bit_or (bit_and a 3 * 2 ^ 4) (b / 2 ^ 4))
    ∷ base64_char (bit_or (bit_and b 15 * 2 ^ 2) (0 / 2 ^ 6))
    ∷ 61
    ∷ []
encode_loop (a ∷ b ∷ c ∷ rest) =
    base64_char (a / 2 ^ 2)
    ∷ base64_char (bit_or (bit_and a 3 * 2 ^ 4) (b / 2 ^ 4))
    ∷ base64_char (bit_or (bit_and b 15 * 2 ^ 2) (c / 2 ^ 6))
    ∷ base64_char (bit_and c 63)
    ∷ encode_loop rest

-- `chula_buffer_encode_base64`: what becomes of `encoded`, which an empty source leaves as it was.
-- The sums are of 32 bits; a text that does not fit the memory with its NUL is written behind it.
unfoldable pub encode_base64 : Buffer → Sized → Run Sized
unfolding encode_loop Buffer.is_empty
encode_base64 b encoded =
    let wanted = ((length b.bytes + 4) % 2 ^ 32 * 4 % 2 ^ 32 / 3 + 1) % 2 ^ 32 in
    let size = ensure_size encoded.size wanted in
    let text = encode_loop b.bytes in
    if Buffer.is_empty b
    then done encoded
    else if not (ltb (length text) size)
    then fault
    else done (record { buffer = record { bytes = text; has_memory = true }; size = size })

-- `b64_decode_tab`; `none` is its -1.
unfoldable pub b64_decode : ℕ → Option ℕ
b64_decode c =
    if c == 43
    then some 62
    else if c == 47
    then some 63
    else if leb 48 c && leb c 57
    then some (c + 4)
    else if leb 65 c && leb c 90
    then some (c - 65)
    else if leb 97 c && leb c 122
    then some (c - 71)
    else none

-- The locals of `chula_buffer_decode_base64`, and the memory of the buffer: `space` has the first
-- `space_idx` bytes of the array.
pub record Decoding : Type 0 where
  pub mem : List ℕ
  pub space : List ℕ
  pub phase : ℕ
  pub prev_d : ℕ
  pub buf_pos : ℕ

-- What a digit adds to `space`, and the next phase.
abbrev pub digit_bytes : ℕ → ℕ → ℕ → List ℕ
digit_bytes phase prev_d d =
    if phase == 0
    then []
    else if phase == 1
    then (bit_or (prev_d * 2 ^ 2) (bit_and d 0x30 / 2 ^ 4) % 2 ^ 8) ∷ []
    else if phase == 2
    then (bit_or (bit_and prev_d 0xf * 2 ^ 4) (bit_and d 0x3c / 2 ^ 2) % 2 ^ 8) ∷ []
    else (bit_or (bit_and prev_d 0x03 * 2 ^ 6) d % 2 ^ 8) ∷ []

abbrev pub next_phase : ℕ → ℕ
next_phase phase = if phase == 3 then 0 else phase + 1

abbrev pub with_digit : Decoding → ℕ → Decoding
with_digit s d = record {
  mem = s.mem;
  space = s.space ++ digit_bytes s.phase s.prev_d d;
  phase = next_phase s.phase;
  prev_d = d;
  buf_pos = s.buf_pos;
}

-- `memcpy` to the place `at` of the memory, which has room for it.
abbrev pub copied : List ℕ → ℕ → List ℕ → List ℕ
copied mem at bytes = take at mem ++ (bytes ++ drop (at + length bytes) mem)

-- The end of a round: a full `space` goes to the memory.
unfoldable pub flushed : Decoding → Decoding
flushed s =
    if length s.space == 127
    then record {
      mem = copied s.mem s.buf_pos s.space;
      space = [];
      phase = s.phase;
      prev_d = s.prev_d;
      buf_pos = s.buf_pos + 127;
    }
    else s

unfoldable pub round : Decoding → ℕ → Decoding
unfolding b64_decode flushed
round s c = flushed (elim (b64_decode c) [ none ↦ s | some d ↦ with_digit s d ])

-- The loop, in place, at `i`, `left` rounds before its end.
unfoldable pub decode_loop : ℕ → ℕ → Decoding → Decoding
unfolding round
decode_loop zero i s = s
decode_loop (suc left) i s = elim (get_elem? s.mem i) [
  | none ↦ s
  | some c ↦ decode_loop left (i + 1) (round s c)
]

-- `chula_buffer_decode_base64`. The NUL behind the contents is not modelled.
unfoldable pub decode_base64 : Buffer → Buffer
unfolding decode_loop Buffer.is_empty
decode_base64 b =
    let start : Decoding = record {
      mem = b.bytes;
      space = [];
      phase = 0;
      prev_d = 0;
      buf_pos = 0;
    } in
    let s = decode_loop (length b.bytes) 0 start in
    let made : Buffer = record {
      bytes = take (s.buf_pos + length s.space) (copied s.mem s.buf_pos s.space);
      has_memory = b.has_memory;
    } in
    if Buffer.is_empty b then b else made
