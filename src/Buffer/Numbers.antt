-- ===== src/Buffer/Numbers.antt =====
-- libchula/buffer.c: numbers as text, in decimal and in hexadecimal. Memory is taken to be granted
-- for the buffer; the digits are made in an array of `IOS_NUMBUF` characters, from its end on.
pub mod Value
mod Tests
use libhpack.Common.{
  ℕ, zero, suc, ◌+◌, ◌-◌, ◌/◌, ◌%◌, ◌^◌, bit_and, Bool, true, List, [], ◌∷◌, ◌==◌, ltb,
  if◌then◌else◌,
}
use libhpack.Common.Run.{Run, done, fault, ◌>>=◌}
use libhpack.Buffer
use libhpack.Buffer.{Buffer}
use libhpack.Buffer.Hex.{to_hex}

-- The places for digits in the array: its last character is the NUL.
abbrev pub places : ℕ
places = 64 - 1

-- The loop that makes digits, in base `base` with the characters `char`, before those in `text`.
-- A digit more than the places that are left is written outside the array.
unfoldable pub digits_loop : ℕ → (ℕ → ℕ) → ℕ → ℕ → List ℕ → Run (List ℕ)
digits_loop base char zero n text = fault
digits_loop base char (suc left) n text =
    let text' = char (n % base) ∷ text in
    let rest = digits_loop base char left (n / base) text' in
    if n / base == 0 then done text' else rest

abbrev pub decimal : ℕ → ℕ
decimal d = d + 48

-- `chula_buffer_add_ulong10` and `chula_buffer_add_ullong10`, for a number below 2 ^ 32 or 2 ^ 64.
unfoldable pub add_ulong10 : Buffer → ℕ → Run Buffer
unfolding digits_loop Buffer.add
add_ulong10 b n = do text ← digits_loop 10 decimal places n []; done (Buffer.add b text)

-- `chula_buffer_add_ulong16` and `chula_buffer_add_ullong16`. Four bits are a digit.
unfoldable pub add_ulong16 : Buffer → ℕ → Run Buffer
unfolding digits_loop Buffer.add
add_ulong16 b n = do text ← digits_loop 16 to_hex places n []; done (Buffer.add b text)

-- The text of a number and its sign.
abbrev pub add_signed : Buffer → Bool → Run (List ℕ) → Run Buffer
add_signed b is_negative digits = do
  text ← digits
  done (Buffer.add b (if is_negative then 45 ∷ text else text))

-- `chula_buffer_add_long10` (`w` is 32) and `chula_buffer_add_llong10` (64): the number is given by
-- its bits. The sign takes a place of the array, also where it is not used.
unfoldable pub add_long10 : ℕ → Buffer → ℕ → Run Buffer
unfolding digits_loop Buffer.add
add_long10 w b bits =
    let is_negative = ltb (2 ^ (w - 1) - 1) bits in
    let size = if is_negative then (2 ^ w - bits) % 2 ^ w else bits in
    add_signed b is_negative (digits_loop 10 decimal (places - 1) size [])
