-- ===== src/HeaderParser/Strings.antt =====
-- libhpack/header_parser.c: reading the block, and strings in it.
pub mod Consumed
pub mod Read
pub mod Safe
use libhpack.Common.{
  ℕ, ◌+◌, ◌-◌, ◌%◌, ◌^◌, bit_and, Bool, true, false, not, List, [], ◌∷◌, ◌++◌, length,
}
use libhpack.Common.{if◌then◌else◌, ltb, leb, ◌==◌, get_elem?, take, drop}
use libhpack.Common.Ret.{Ret, ok, error, eagain}
use libhpack.Common.Run.{Run, done, fault, ◌>>=◌, checked}
use libhpack.Buffer
use libhpack.Buffer.{Buffer}
use libhpack.Huffman
use libhpack.Huffman.{Entry}
use libhpack.Integer
use libhpack.HeaderTable.Table.{is_ok}

-- The memory at `buf->buf`: the contents, and the '\0' that chula keeps behind them.
abbrev pub memory : Buffer → List ℕ
memory b = b.bytes ++ (0 ∷ [])

-- `buf->buf[n]`
abbrev pub peek : Buffer → ℕ → Run ℕ
peek b n = checked (get_elem? (memory b) n)

-- The `n` bytes at `buf->buf + pos`.
abbrev pub slice : Buffer → ℕ → ℕ → Run (List ℕ)
slice b pos n =
    if leb (pos + n) (length b.bytes + 1) then done (take n (drop pos (memory b))) else fault

-- `hpack_integer_decode` at `buf->buf + n`. The length that is left is made an `unsigned char`.
abbrev pub decode_at : Buffer → ℕ → ℕ → Run (Ret × ℕ × ℕ)
decode_at b prefix n =
    checked
      (Integer.decode prefix (drop n (memory b)) ((length b.bytes + 2 ^ 32 - n) % 2 ^ 32 % 256) 0)

module _ (decode_table : ℕ → ℕ → Entry) where
  -- The string of `len` bytes at `n`. A plain string is copied as a whole. The decoder reads an octet
  -- at a time: it comes to an end with an error before it leaves the memory, or leaves it.
  copy_string : Buffer → ℕ → ℕ → Buffer → Bool → Run (Ret × Buffer)
  unfolding Huffman.decode Buffer.add
  copy_string b n len string huffman =
      let there = take len (drop n (memory b)) in
      let (r, out, _) =
        Huffman.decode decode_table there string (record { state = 0; accept = true }) in
      let plain : Run (Ret × Buffer) = do got ← slice b n len; done (ok, Buffer.add string got)
      in let coded : Run (Ret × Buffer) =
          if not (is_ok r) then done (error, out) else (do got ← slice b n len; done (ok, out)) in
        if huffman then coded else plain

  -- The part of `parse_string` behind the length, which was decoded with status `r` from `con`
  -- octets.
  string_at : Buffer → ℕ → Buffer → Bool → Ret → ℕ → ℕ → Run (Ret × Buffer × Bool × ℕ)
  unfolding copy_string
  string_at b offset string huffman r len con =
      let n = (offset + con) % 2 ^ 32 in
      let copied : Run (Ret × Buffer × Bool × ℕ) = do
        (r', string') ← copy_string b n len string huffman
        if is_ok r'
            then done (ok, string', huffman, (n + len + 2 ^ 32 - offset) % 2 ^ 32)
            else done (error, string', huffman, 0)
      in if not (is_ok r)
        then done (error, string, huffman, 0)
        else if ltb (length b.bytes) ((n + len) % 2 ^ 32)
        then done (eagain, string, huffman, 0)
        else copied

  -- `parse_string`: the status, `string`, `*huffman` and `*consumed`.
  unfoldable pub parse_string : Buffer → ℕ → Buffer → Run (Ret × Buffer × Bool × ℕ)
  unfolding string_at
  parse_string b offset string = do
    first ← peek b offset
    (r, len, con) ← decode_at b 7 offset
    string_at b offset string (not (bit_and first 128 == 0)) r len con
