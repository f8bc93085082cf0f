-- ===== src/HeaderParser/Block/Literal.antt =====
-- A literal with a new name that is not to be indexed, as a field of a block.
use libhpack.Common.{ℕ, ◌+◌, ◌^◌, ◌≤◌, ◌<◌, ◌≡◌, refl, ap, ◌∙◌, arith, Bool, false, length, ◌==◌}
use libhpack.Common.Ret.{ok}
use libhpack.Common.Run.{done, ◌>>=◌}
use libhpack.Buffer
use libhpack.Buffer.{Buffer}
use libhpack.Huffman.{Entry}
use libhpack.HeaderField
use libhpack.HeaderField.{Field, rep_wo_indexing}
use libhpack.HeaderParser.{Context}
use libhpack.HeaderParser.Strings.{peek, parse_string}
use libhpack.HeaderParser.Representations.{with_rep}
use libhpack.HeaderParser.Representations.New.{with_strings, parse_header_pair_new}
use libhpack.HeaderParser.Block.{literal_parsed, literal_field, unfinished, field_at, field}

pub field_new :
    (decode_table : ℕ → ℕ → Entry) (shl_int : ℕ → ℕ) (b : Buffer) (offset : ℕ) (c : Context)
    (f : Field) {name value : Buffer} {h1 h2 : Bool} {k1 k2 : ℕ}
    → length b.bytes < 2 ^ 31
    → offset + 1 + k1 + k2 ≤ length b.bytes
    → peek b offset ≡ done 0
    → parse_string decode_table b (offset + 1) (Buffer.clean f.name) ≡ done (ok, name, h1, k1)
    → parse_string decode_table b (offset + 1 + k1) (Buffer.clean f.value)
      ≡ done (ok, value, h2, k2)
    → field decode_table shl_int b offset c f
      ≡ done (
        ok,
        unfinished c,
        with_rep (with_strings f name h1 value h2) rep_wo_indexing,
        1 + k1 + k2,
      )
unfolding field field_at literal_field literal_parsed HeaderField.clean
field_new decode_table shl_int b offset c f {name} {value} {h1} {h2} {k1} {k2} small inside e e1
      e2 =
    let more : (offset == length b.bytes) ≡ false = ground arith in
    let g = (HeaderField.clean f).1 in
    ap (λ m. m >>= (λ octet. field_at decode_table shl_int b offset octet c g)) e
    ∙ rw more (
        ap (λ m. m >>= (λ x. literal_parsed 0 (unfinished c) x.0 x.1 x.2))
          (parse_header_pair_new decode_table b offset c.table g 0 small inside e refl e1 e2))
