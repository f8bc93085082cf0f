-- ===== src/Buffer/Edit.antt =====
-- libchula/buffer.c: changes of a buffer's contents. Memory is taken to be granted.
pub mod Chunk
pub mod Trim
mod Tests
use libhpack.Common.{
  ℕ, zero, suc, ◌+◌, ◌-◌, ◌%◌, ◌^◌, Bool, true, false, ◌&&◌, ◌||◌, List, [], ◌∷◌, ◌++◌, length,
  get_or,
}
use libhpack.Common.{Option, none, some, get_elem?, take, drop, min, leb, ◌==◌, if◌then◌else◌}
use libhpack.Buffer
use libhpack.Buffer.{Buffer}

-- `num` bytes `c`, as `memset` stores them.
abbrev pub filled : ℕ → ℕ → List ℕ
filled c zero = []
filled c (suc num) = c ∷ filled c num

-- The contents with `f` done to every byte.
abbrev pub each_byte : (ℕ → ℕ) → List ℕ → List ℕ
each_byte f [] = []
each_byte f (x ∷ xs) = f x ∷ each_byte f xs

unfoldable pub swap_buffers : Buffer → Buffer → Buffer × Buffer
swap_buffers b second = (second, b)

-- For a number that is not negative.
unfoldable pub add_char_n : Buffer → ℕ → ℕ → Buffer
unfolding Buffer.add
add_char_n b c num = Buffer.add b (filled c num)

unfoldable pub prepend : Buffer → List ℕ → Buffer
prepend b [] = b
prepend b (x ∷ xs) = record { bytes = (x ∷ xs) ++ b.bytes; has_memory = true }

unfoldable pub is_ending : Buffer → ℕ → Bool
unfolding Buffer.is_empty
is_ending b c =
    if Buffer.is_empty b
    then false
    else elim (get_elem? b.bytes (length b.bytes - 1)) [ none ↦ false | some last ↦ last == c ]

unfoldable pub move_to_begin : Buffer → ℕ → Buffer
unfolding Buffer.clean
move_to_begin b pos =
    if pos == 0
    then b
    else if leb (length b.bytes) pos
    then Buffer.clean b
    else record { bytes = drop pos b.bytes; has_memory = b.has_memory }

-- Without memory there are no contents to drop.
unfoldable pub drop_ending : Buffer → ℕ → Buffer
drop_ending b num_chars =
    let num = min num_chars (length b.bytes) in
    if b.has_memory
    then record { bytes = take (length b.bytes - num) b.bytes; has_memory = true }
    else b

unfoldable pub swap_chars : Buffer → ℕ → ℕ → Buffer
swap_chars b old new =
    if b.has_memory
    then record { bytes = each_byte (λ x. if x == old then new else x) b.bytes; has_memory = true }
    else b

-- The bytes of a `char` from 'A' to 'Z' are 65 to 90.
unfoldable pub to_lowcase : Buffer → Buffer
to_lowcase b = record {
  bytes = each_byte (λ x. if leb 65 x && leb x 90 then x + 32 else x) b.bytes;
  has_memory = b.has_memory;
}

-- A text of no bytes, or none at all, changes nothing. `pos` is cut down to the length.
unfoldable pub insert : Buffer → List ℕ → ℕ → Buffer
insert b [] pos = b
insert b (x ∷ xs) pos =
    let posn = min pos (length b.bytes) in
    record { bytes = take posn b.bytes ++ (x ∷ xs) ++ drop posn b.bytes; has_memory = true }

unfoldable pub insert_buffer : Buffer → Buffer → ℕ → Buffer
unfolding insert
insert_buffer b src pos = insert b src.bytes pos

-- What a removal leaves: the bytes that stand in the memory in front of the terminator, and the
-- value of the field `len`, which may differ from their number.
pub record Chunked : Type 0 where
  pub memory : Buffer
  pub len : ℕ

-- `len` and `from` are 32-bit numbers, and so is the field, which is reduced by `len` as it is.
unfoldable pub remove_chunk : Buffer → ℕ → ℕ → Chunked
unfolding Buffer.clean
remove_chunk b from len =
    let end = min (from + len) (length b.bytes) in
    if leb (length b.bytes) from
    then record { memory = b; len = length b.bytes }
    else if (from == 0) && leb (length b.bytes) len
    then record { memory = Buffer.clean b; len = 0 }
    else record {
      memory = record { bytes = take from b.bytes ++ drop end b.bytes; has_memory = b.has_memory };
      len = (length b.bytes + 2 ^ 32 - len) % 2 ^ 32;
    }

-- A space, a tab, a carriage return or a line feed.
unfoldable pub is_blank : ℕ → Bool
is_blank c = (c == 32) || (c == 9) || (c == 13) || (c == 10)

-- The first loop of `trim`, which counts up `s`.
unfoldable pub start_loop : List ℕ → ℕ
unfolding is_blank
start_loop [] = 0
start_loop (c ∷ bytes) = let s = start_loop bytes in if is_blank c then suc s else 0

-- The second loop of `trim`, with the rounds that are left while `e < (buf->len - s)`.
unfoldable pub end_loop : ℕ → List ℕ → ℕ → ℕ
unfolding is_blank
end_loop zero bytes e = e
end_loop (suc rounds) bytes e =
    let more = end_loop rounds bytes (suc e) in
    if is_blank (get_or bytes (length bytes - suc e) 0) then more else e

unfoldable pub trim : Buffer → Buffer
unfolding start_loop end_loop Buffer.is_empty
trim b =
    let s = start_loop b.bytes in
    let e = end_loop (length b.bytes - s) b.bytes 0 in
    if Buffer.is_empty b then b else record {
      bytes = take (length b.bytes - (s + e)) (drop s b.bytes);
      has_memory = b.has_memory;
    }
