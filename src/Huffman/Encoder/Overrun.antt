-- ===== src/Huffman/Encoder/Overrun.antt =====
-- A long code that does not fit the memory that the encoder makes for a single symbol.
use libhpack.Common.{ℕ, suc, ◌-◌, ◌<◌, ◌≡◌, refl, ap, ◌∙◌, arith, false, [], ◌∷◌, ltb, ◌==◌}
use libhpack.Common.Run.{fault}
use libhpack.Buffer.{Sized}
use libhpack.Huffman.Encoder.{Code, Writer, symbol_loop, encode_symbol, encode_loop, encode}

-- `CHULA_BUF_INIT`
abbrev pub fresh : Sized
fresh = record { buffer = record { bytes = []; has_memory = false }; size = 0 }

abbrev start : Writer
start = record { written = []; current = 0; remaining = 8 }

-- The third byte is outside a memory of two.
third_byte :
    (rounds code n : ℕ) → 16 < n → symbol_loop (suc (suc (suc rounds))) 2 code n start ≡ fault
unfolding symbol_loop
third_byte rounds code n h =
    let e1 : ltb n 8 ≡ false = ground arith in
    let e2 : (n - 8 == 0) ≡ false = ground arith in
    let e3 : ltb (n - 8) 8 ≡ false = ground arith in
    let e4 : (n - 8 - 8 == 0) ≡ false = ground arith in rw (e1, e2, e3, e4) refl

-- A single symbol whose code has more than 16 bits, which is put into a buffer that has no memory
-- yet, is written behind the two bytes of memory that `hpack_huffman_encode` makes for it.
pub encode_overrun :
    (codes : ℕ → Code) (x : ℕ) → 16 < (codes x).bits → encode codes (x ∷ []) fresh ≡ fault
unfolding encode encode_loop encode_symbol
encode_overrun codes x h =
    let c = codes x in
    let rounds : suc c.bits ≡ suc (suc (suc (c.bits - 2))) = omega arith in
    let over : symbol_loop (suc c.bits) 2 c.code c.bits start ≡ fault =
      ap (λ n. symbol_loop n 2 c.code c.bits start) rounds
      ∙ third_byte (c.bits - 2) c.code c.bits h in
    rw over refl
