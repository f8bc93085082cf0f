-- ===== src/Buffer/Uri.antt =====
-- libchula/buffer.c: escaping and unescaping of URIs. Memory is taken to be granted. The end of the
-- contents is the NUL that stands behind them.
pub mod RoundTrip
mod Tests
use libhpack.Common.{
  ℕ, zero, suc, ◌+◌, ◌-◌, ◌*◌, ◌/◌, ◌%◌, ◌^◌, bit_and, List, [], ◌∷◌, ◌++◌, length, take, drop,
}
use libhpack.Common.{
  Bool, true, false, not, ◌&&◌, ◌==◌, Option, none, some, ltb, leb, if◌then◌else◌, get_or,
}
use libhpack.Buffer
use libhpack.Buffer.{Buffer, Sized, ensure_addlen}
use libhpack.Common.Run.{Run, done, fault}

-- How far `utf8_get_next_char` moves on at the start of a string.
unfoldable pub utf8_size : List ℕ → ℕ
utf8_size xs =
    let at = get_or xs in
    if bit_and (at 0 0) 0xe0 == 0xc0
    then (if at 1 0 == 0 then 1 else 2)
    else if bit_and (at 0 0) 0xf0 == 0xe0
    then (if at 1 0 == 0 then 1 else if at 2 0 == 0 then 2 else 3)
    else if bit_and (at 0 0) 0xf8 == 0xf0
    then (if at 1 0 == 0 then 1 else if at 2 0 == 0 then 2 else if at 3 0 == 0 then 3 else 4)
    else 1

-- The tables of `chula_buffer_escape_uri`, `chula_buffer_escape_uri_delims` and
-- `chula_buffer_escape_arg`.
abbrev pub escape_uri : List ℕ
escape_uri =
    0xffffffff ∷ 0x80000029 ∷ 0x00000000 ∷ 0x80000000 ∷ 0xffffffff ∷ 0xffffffff ∷ 0xffffffff
    ∷ 0xffffffff ∷ []

abbrev pub escape_uri_delims : List ℕ
escape_uri_delims =
    0xffffffff ∷ 0x84000029 ∷ 0x28000001 ∷ 0x80000000 ∷ 0xffffffff ∷ 0xffffffff ∷ 0xffffffff
    ∷ 0xffffffff ∷ []

abbrev pub escape_arg : List ℕ
escape_arg =
    0xffffffff ∷ 0x88000869 ∷ 0x00000000 ∷ 0x80000000 ∷ 0xffffffff ∷ 0xffffffff ∷ 0xffffffff
    ∷ 0xffffffff ∷ []

-- `is_char_escaped[*s >> 5] & (1 << (*s & 0x1f))`
unfoldable pub is_char_escaped : List ℕ → ℕ → Bool
is_char_escaped table c = not (bit_and (get_or table (c / 2 ^ 5) 0) (2 ^ bit_and c 0x1f) == 0)

-- `hex_chars`, below 16.
abbrev pub hex_char : ℕ → ℕ
hex_char n = if ltb n 10 then n + 48 else n + 87

-- What the loop of `escape_with_table` writes for a character that stands by itself.
abbrev pub escaped_char : List ℕ → ℕ → List ℕ
escaped_char table c =
    if is_char_escaped table c
    then 37 ∷ hex_char (c / 2 ^ 4) ∷ hex_char (bit_and c 0xf) ∷ []
    else c ∷ []

-- That loop, inside a character of several bytes with `inside` of them left, or at the start of one.
unfoldable pub escape_loop : List ℕ → ℕ → List ℕ → List ℕ
unfolding utf8_size is_char_escaped
escape_loop table inside [] = []
escape_loop table (suc inside) (x ∷ xs) = x ∷ escape_loop table inside xs
escape_loop table zero (x ∷ xs) =
    let size = utf8_size (x ∷ xs) in
    let rest = escape_loop table (size - 1) xs in
    if ltb 1 size then x ∷ rest else escaped_char table x ++ rest

-- The loop that counts the characters to escape, in the same way.
unfoldable pub count_loop : List ℕ → ℕ → List ℕ → ℕ
unfolding utf8_size is_char_escaped
count_loop table inside [] = 0
count_loop table (suc inside) (x ∷ xs) = count_loop table inside xs
count_loop table zero (x ∷ xs) =
    let size = utf8_size (x ∷ xs) in
    let n = count_loop table (size - 1) xs in
    if ltb 1 size then n else if is_char_escaped table x then suc n else n

-- `escape_with_table`: what becomes of `buffer`. The sums are of 32 bits; what does not fit the
-- memory with its NUL is written behind it.
unfoldable pub escape_with_table : Sized → Buffer → List ℕ → Run Sized
unfolding escape_loop count_loop Buffer.is_empty
escape_with_table b src table =
    let n_escape = count_loop table 0 src.bytes in
    let addlen = (length src.bytes + n_escape * 3) % 2 ^ 32 in
    let size = ensure_addlen b.size (length b.buffer.bytes) addlen in
    let written = b.buffer.bytes ++ escape_loop table 0 src.bytes in
    let len = (length b.buffer.bytes + (length src.bytes + n_escape * 2)) % 2 ^ 32 in
    if Buffer.is_empty src
    then done b
    else if not (ltb (length written) size)
    then fault
    else done
        (record { buffer = record { bytes = take len written; has_memory = true }; size = size })

-- `hex2dec_tab`
abbrev pub hex2dec : ℕ → ℕ
hex2dec c =
    if leb 48 c && leb c 57
    then c - 48
    else if leb 65 c && leb c 70
    then c - 55
    else if leb 97 c && leb c 102
    then c - 87
    else 0

-- The character that an escape sequence is replaced with.
abbrev pub unescaped_char : ℕ → ℕ → ℕ
unescaped_char c1 c2 =
    let value = (hex2dec c1 * 16 + hex2dec c2) % 2 ^ 8 in if value == 0 then 32 else value

-- `isxdigit` is the C library's.
module _ (isxdigit : ℕ → Bool) where
  -- An escape sequence at the start of a string.
  unfoldable pub is_escape : List ℕ → Bool
  is_escape xs = get_or xs 0 0 == 37 && isxdigit (get_or xs 1 0) && isxdigit (get_or xs 2 0)

  -- The loop of `chula_buffer_unescape_uri`, with `skip` characters of an escape sequence left:
  -- what is written, and how many sequences there were. It leaves the characters before the first
  -- `%` as they are.
  unfoldable pub unescape_loop : ℕ → List ℕ → List ℕ × ℕ
  unfolding is_escape
  unescape_loop skip [] = ([], 0)
  unescape_loop (suc skip) (x ∷ xs) = unescape_loop skip xs
  unescape_loop zero (x ∷ xs) =
      let escape = is_escape (x ∷ xs) in
      let (rest, n) = unescape_loop (if escape then 2 else 0) xs in
      let c = if escape then unescaped_char (get_or xs 0 0) (get_or xs 1 0) else x in
      if x == 0 then ([], 0) else (c ∷ rest, (if escape then n + 1 else n))

  -- `chula_buffer_unescape_uri`, in place: the NUL that it writes, and the memory behind it, are
  -- part of the contents where these have a NUL.
  unfoldable pub unescape_uri : Buffer → Buffer
  unfolding unescape_loop Buffer.is_empty
  unescape_uri b =
      let (out, n) = unescape_loop 0 b.bytes in
      let mem = out ++ (0 ∷ drop (length out + 1) b.bytes) in
      if Buffer.is_empty b
      then b
      else record { bytes = take (length b.bytes - 2 * n) mem; has_memory = b.has_memory }
