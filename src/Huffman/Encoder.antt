-- ===== src/Huffman/Encoder.antt =====
-- libhpack/huffman.c, the encoder. The build generates its table too, so that is a parameter.
pub mod Overrun
pub mod Pending
pub mod Stream
use libhpack.Common.{
  ℕ, zero, suc, ◌+◌, ◌-◌, ◌*◌, ◌/◌, ◌%◌, ◌^◌, bit_or, Bool, true, not, List, [], ◌∷◌, ◌++◌, length,
  ltb, leb, ◌==◌, if◌then◌else◌,
}
use libhpack.Common.Ret.{Ret, ok}
use libhpack.Common.Run.{Run, done, fault, stuck, ◌>>=◌}
use libhpack.Buffer.{Buffer, Sized, ensure_size, ensure_addlen}

-- `hpack_huffman_code_t`. The code is a `uint32_t`, so the code below is exact for up to 32 bits.
pub record Code : Type 0 where
  pub bits : ℕ
  pub code : ℕ

-- The output while it is written: the bytes before `out->len`, the byte at `out->len`, and how many
-- of its low bits are free. The source reads no byte at `out->len` that it has not set; it stands
-- as 0.
pub record Writer : Type 0 where
  pub written : List ℕ
  pub current : ℕ
  pub remaining : ℕ

-- `out->buf[out->len] |= x`
abbrev pub or_byte : ℕ → ℕ → ℕ
or_byte current x = bit_or current x % 256

-- `out` before a symbol: it grows by the length of the input if fewer than eight bytes are free.
abbrev pub grown : ℕ → ℕ → ℕ → ℕ
grown size len addlen =
    if ltb ((size + 2 ^ 32 - len) % 2 ^ 32) 8 then ensure_addlen size len addlen else size

-- The loop of `encode_symbol` for the `nbits` low bits of `code`. A round takes at least one of them
-- while `remaining` is not 0, so more rounds than bits are enough. Each round writes the byte at
-- `out->len`, which is a fault if the memory, of `size` bytes, has no such byte.
symbol_loop : ℕ → ℕ → ℕ → ℕ → Writer → Run Writer
symbol_loop zero size code nbits w = stuck
symbol_loop (suc rounds) size code nbits w =
    let left : ℕ = nbits - w.remaining in
    let shifted : ℕ = code * 2 ^ (w.remaining - nbits) % 2 ^ 32 in
    let flushed : Writer = record {
      written = w.written ++ (or_byte w.current (code / 2 ^ left) ∷ []);
      current = 0;
      remaining = 8;
    } in
    let again = symbol_loop rounds size code left flushed in
    if not (ltb (length w.written) size)
    then fault
    else if ltb nbits w.remaining
    then done (record {
      written = w.written;
      current = or_byte w.current shifted;
      remaining = w.remaining - nbits;
    })
    else if left == 0
    then done flushed
    else again

encode_symbol : ℕ → Code → Writer → Run Writer
unfolding symbol_loop
encode_symbol size c w = symbol_loop (suc c.bits) size c.code c.bits w

module _ (codes : ℕ → Code) where
  -- The loop of `hpack_huffman_encode` over its input, of `in_len` bytes in all: the output and the
  -- size of its memory.
  encode_loop : ℕ → List ℕ → ℕ → Writer → Run (Writer × ℕ)
  unfolding encode_symbol
  encode_loop in_len [] size w = done (w, size)
  encode_loop in_len (x ∷ xs) size w = do
    let size' = grown size (length w.written) in_len
    w' ← encode_symbol size' (codes x) w
    encode_loop in_len xs size' w'

  -- What stands behind the loop: the first bits of the code 256 fill up the last byte.
  padded : Writer → List ℕ
  padded w =
      let last = or_byte w.current ((codes 256).code / 2 ^ ((codes 256).bits - w.remaining)) in
      if ltb w.remaining 8 then w.written ++ (last ∷ []) else w.written

  -- `hpack_huffman_encode`: the status and the output.
  unfoldable pub encode : List ℕ → Sized → Run (Ret × Sized)
  unfolding encode_loop padded
  encode input out = do
    (w, size) ←
        encode_loop (length input) input out.size
          (record { written = out.buffer.bytes; current = 0; remaining = 8 })
    let bytes = padded w
    done (
      ok,
      record {
        buffer = record { bytes = bytes; has_memory = true };
        size = ensure_size size (length bytes + 1);
      },
    )
