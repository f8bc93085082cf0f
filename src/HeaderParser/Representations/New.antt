-- ===== src/HeaderParser/Representations/New.antt =====
-- A literal with a new name, from the reads of its two strings.
use libhpack.Common.{
  ℕ, ◌+◌, ◌%◌, ◌^◌, ◌≤◌, ◌<◌, ◌≡◌, ap, arith, Bool, true, length, ◌==◌, bit_and, if◌then◌else◌,
}
use libhpack.Common.Ret.{ok}
use libhpack.Common.Run.{done}
use libhpack.Buffer.{Buffer}
use libhpack.Huffman.{Entry}
use libhpack.HeaderField.{Field, is_new, is_new_huffman}
use libhpack.HeaderTable.Table.{Table}
use libhpack.HeaderParser.Strings.{peek, parse_string}
use libhpack.HeaderParser.Representations.{literal_name, pair_name, pair_value, parse_header_pair}

abbrev pub type_of : Bool → ℕ
type_of huffman = if huffman then is_new_huffman else is_new

-- The field `f` with two new strings.
abbrev pub with_strings : Field → Buffer → Bool → Buffer → Bool → Field
with_strings f name h1 value h2 = record {
  flags = record { name = type_of h1; value = type_of h2; rep = f.flags.rep };
  name = name;
  value = value;
}

pub parse_header_pair_new :
    (decode_table : ℕ → ℕ → Entry) (b : Buffer) (offset : ℕ) (t : Table) (f : Field) (first : ℕ)
    {name value : Buffer} {h1 h2 : Bool} {k1 k2 : ℕ}
    → length b.bytes < 2 ^ 31
    → offset + 1 + k1 + k2 ≤ length b.bytes
    → peek b offset ≡ done first
    → (bit_and first 0x0f == 0) ≡ true
    → parse_string decode_table b (offset + 1) f.name ≡ done (ok, name, h1, k1)
    → parse_string decode_table b (offset + 1 + k1) f.value ≡ done (ok, value, h2, k2)
    → parse_header_pair decode_table b offset t f
      ≡ done (ok, with_strings f name h1 value h2, 1 + k1 + k2)
unfolding parse_header_pair pair_name literal_name pair_value
parse_header_pair_new decode_table b offset t f first {name} {value} {h1} {h2} {k1} {k2} small
      inside e new e1 e2 =
    let a1 : (offset + 1) % 2 ^ 32 ≡ offset + 1 = omega arith in
    let a2 : (offset + 1 + k1) % 2 ^ 32 ≡ offset + 1 + k1 = omega arith in
    rw (e, new, a1, e1, a2, e2)
      (ap (λ k. done (ok, with_strings f name h1 value h2, k)) (omega arith))
