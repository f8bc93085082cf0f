-- ===== src/Huffman.antt =====
-- libhpack/huffman.c, the decoder. The build generates its table, so the table is a parameter.
pub mod Pieces
pub mod Encoder
pub mod Tables
pub mod RoundTrip
pub mod Octets
mod Tests
use libhpack.Common.{
  ℕ, ◌/◌, ◌%◌, bit_and, Bool, true, false, not, List, [], ◌∷◌, Option, none, some,
}
use libhpack.Common.{◌==◌, if◌then◌else◌}
use libhpack.Common.Ret.{Ret, ok, error, is_ok}
use libhpack.Buffer
use libhpack.Buffer.{Buffer}

-- `HPACK_HUFFMAN_ACCEPTED` and `HPACK_HUFFMAN_SYMBOL`
abbrev accepted_flag : ℕ
accepted_flag = 1

abbrev pub symbol_flag : ℕ
symbol_flag = 2

-- `hpack_huffman_decode_t`; `none` is the state -1.
pub record Entry : Type 0 where
  pub state : Option ℕ
  pub flags : ℕ
  pub sym : ℕ

-- `hpack_huffman_decode_context_t`
pub record DecodeContext : Type 0 where
  pub state : ℕ
  pub accept : Bool

module _ (decode_table : ℕ → ℕ → Entry) where
  -- One round of the inner loop, on four bits.
  half_byte : ℕ → Buffer → DecodeContext → Ret × Buffer × DecodeContext
  unfolding Buffer.add_char
  half_byte c out context =
      let t = decode_table context.state c in
      let out' = if bit_and t.flags symbol_flag == 0 then out else Buffer.add_char out t.sym in
      elim t.state [
        | none ↦ (error, out, context)
        | some s ↦ (
          ok,
          out',
          record { state = s % 256; accept = not (bit_and t.flags accepted_flag == 0) },
        )
      ]

  -- `hpack_huffman_decode`: the status, the output and the context.
  unfoldable pub decode : List ℕ → Buffer → DecodeContext → Ret × Buffer × DecodeContext
  unfolding half_byte
  decode [] out context = (ok, out, context)
  decode (b ∷ bs) out context =
      let (r1, out1, context1) = half_byte (b / 16) out context in
      let (r2, out2, context2) = half_byte (bit_and b 15) out1 context1 in
      let rest = decode bs out2 context2 in
      if not (is_ok r1)
      then (r1, out1, context1)
      else if not (is_ok r2)
      then (r2, out2, context2)
      else rest
