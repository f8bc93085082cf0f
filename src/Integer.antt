-- ===== src/Integer.antt =====
-- libhpack/integer.c and integer.h: integers with an N-bit prefix. Memory is a list of bytes; an
-- access outside it is `none`, which stands for C's undefined behaviour.
pub mod Vlq
pub mod Encode
pub mod Decode
pub mod RoundTrip
mod Tests
use libhpack.Common.{ℕ, zero, suc, ◌+◌, ◌-◌, ◌*◌, ◌/◌, ◌%◌, ◌^◌, ◌≤◌, ◌<◌, min, bit_and, bit_or}
use libhpack.Common.{Bool, List, [], ◌∷◌, Option, none, some, ◌>>=◌, arith, lt_wf}
use libhpack.Common.{ltb, ◌==◌, if◌then◌else◌, get_elem?, store}
use libhpack.Common.Ret.{Ret, ok, error}
use mathlib.Core.Logic.{dite}
use mathlib.Core.WellFounded.{Acc}
use native.Mathlib.Decide.{dec_le}

-- `limits`: the largest number of each prefix length.
abbrev pub limits : List ℕ
limits = 0 ∷ 1 ∷ 3 ∷ 7 ∷ 15 ∷ 31 ∷ 63 ∷ 127 ∷ 255 ∷ []

-- `VLQ_MAX_LEN_INTEGER` where `int` has four bytes.
abbrev pub vlq_max_len_integer : ℕ
vlq_max_len_integer = 4 + 2

abbrev pub uint_max : ℕ
uint_max = 2 ^ 32 - 1

-- `(mem[0] & ~limit) | low`. Of `~limit` only the low byte meets a bit of `mem[0]`.
abbrev pub put_prefix : ℕ → ℕ → ℕ → ℕ
put_prefix first limit low = bit_or (bit_and first (255 - limit)) low

quotient_smaller : (value : ℕ) → 128 ≤ value → value / 128 < value
quotient_smaller value h = omega arith

-- `while (value >= 128) { ... }` and the store behind it: the memory and `i` at the end.
encode_loop : List ℕ → ℕ → (value : ℕ) → Acc ◌<◌ value → Option (List ℕ × ℕ)
encode_loop mem i value (Acc.intro _ smaller) =
    dite (dec_le 128 value)
      (λ more. do
        mem' ← store mem i ((128 + value % 128) % 256)
        encode_loop mem' (i + 1) (value / 128) (smaller _ (quotient_smaller value more)))
      (λ _. do mem' ← store mem i (value % 256); some (mem', i + 1))

-- The branch of a number that does not fit the prefix.
encode_long : ℕ → ℕ → ℕ → List ℕ → Option (Ret × List ℕ × ℕ)
unfolding encode_loop
encode_long limit first value mem = do
  mem' ← store mem 0 (put_prefix first limit limit)
  (mem'', i) ← encode_loop mem' 1 (value - limit) (lt_wf.apply (value - limit))
  some (ok, mem'', i % 256)

-- The branch of a number that fits the prefix.
encode_short : ℕ → ℕ → ℕ → List ℕ → Option (Ret × List ℕ × ℕ)
encode_short limit first value mem = do
  mem' ← store mem 0 (put_prefix first limit (value % 256))
  some (ok, mem', 1)

-- `hpack_integer_encode`: the status, `mem` and `*mem_len` at the end.
pub encode : ℕ → ℕ → List ℕ → Option (Ret × List ℕ × ℕ)
unfolding encode_long encode_short
encode n value mem = do
  limit ← get_elem? limits n
  first ← get_elem? mem 0
  if ltb value limit then encode_short limit first value mem else encode_long limit first value mem

-- The `for` loop with `left` rounds to go and `i` rounds begun; `M` is `m`. The products and sums
-- are those of `unsigned long`. The result is the status, `*ret` and `*consumed`.
decode_loop : ℕ → List ℕ → ℕ → ℕ → ℕ → ℕ → ℕ → Option (Ret × ℕ × ℕ)
decode_loop zero mem i m decoded ret consumed = some (error, ret, consumed)
decode_loop (suc left) mem i m decoded ret consumed =
    let next = λ (d : ℕ). decode_loop left mem (i + 1) (m + 7) d ret consumed in
    do
      b ← get_elem? mem i
      let d = (decoded + bit_and b 127 * 2 ^ m) % 2 ^ 64
      if bit_and b 128 == 128
          then next d
          else if ltb uint_max d
          then some (error, ret, consumed)
          else some (ok, d % 2 ^ 32, i + 1)

-- `hpack_integer_decode`: the status, `*ret` and `*consumed`, given what `*consumed` held. The
-- rounds of the loop are those of `i` from 1 up to `MIN(mem_len, VLQ_MAX_LEN_INTEGER)`.
unfoldable pub decode : ℕ → List ℕ → ℕ → ℕ → Option (Ret × ℕ × ℕ)
unfolding decode_loop
decode n mem mem_len consumed = do
  limit ← get_elem? limits n
  first ← get_elem? mem 0
  let ret = bit_and first limit
  if ltb ret limit
      then some (ok, ret, 1)
      else decode_loop (min mem_len vlq_max_len_integer - 1) mem 1 0 ret ret consumed
