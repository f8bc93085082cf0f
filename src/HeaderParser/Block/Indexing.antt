-- ===== src/HeaderParser/Block/Indexing.antt =====
-- A literal with incremental indexing, as a field of a block.
use libhpack.Common.{ℕ, ◌≤◌, ◌<◌, ◌≡◌, ◌∙◌, ap, arith}
use libhpack.Common.{List, length, true, false}
use libhpack.Common.{◌==◌, bit_and, bit_and_high}
use libhpack.Common.Ret.{ok}
use libhpack.Common.Run.{done, ◌>>=◌}
use libhpack.Buffer.{Buffer}
use libhpack.Huffman.{Entry}
use libhpack.HeaderField
use libhpack.HeaderField.{Field, rep_inc_indexed}
use libhpack.HeaderTable.Table.Shrink.{AreHeads}
use libhpack.HeaderTable.Holds.{IsField, counted_size}
use libhpack.HeaderParser.{Context}
use libhpack.HeaderParser.Strings.{peek}
use libhpack.HeaderParser.Representations.{with_rep, referenced, parse_header_pair}
use libhpack.HeaderParser.Agreement.{IsSound}
use libhpack.HeaderParser.Agreement.Newest.{IsIndexed, referenced-IsIndexed}
use libhpack.HeaderParser.Block.{
  indexing, literal_parsed, literal_field, unfinished, field_at, field,
}

with_rep-IsField : (f : Field) → IsField f → IsField (with_rep f rep_inc_indexed)
with_rep-IsField f hf = record {
  not_empty = hf.not_empty;
  flags_in = record {
    name_in = hf.flags_in.name_in;
    value_in = hf.flags_in.value_in;
    rep_in = omega arith;
  };
  name_memory = hf.name_memory;
  value_memory = hf.value_memory;
}

-- What becomes of a literal that is to be indexed.
indexing-IsIndexed :
    (c : Context) (fs : List Field) (f : Field) (con : ℕ)
    → IsSound c fs
    → IsField f
    → counted_size f ≤ c.table.max_data
    → AreHeads c.table.bytes.head fs
    → (c' : Context) × (indexing c f con ≡ done (ok, c', with_rep f rep_inc_indexed, con))
      × IsIndexed c c' fs (with_rep f rep_inc_indexed)
indexing-IsIndexed c fs f con sound hf small heads =
    let g = with_rep f rep_inc_indexed in
    let (c', e, is) = referenced-IsIndexed c fs g sound (with_rep-IsField f hf) small heads in
    (referenced c' 1, unfold indexing in rw e, is)

-- The first octets of literals with incremental indexing.
octet_bits :
    (octet : ℕ)
    → 64 ≤ octet
    → octet < 128
    → ((bit_and octet 0xe0 == 0x20) ≡ false)
      × ((bit_and octet 0x80 == 0) ≡ true)
      × ((bit_and octet 0xc0 == 0x40) ≡ true)
octet_bits octet low high = (
  ground (arith, bit_and_high 5 octet),
  ground (arith, bit_and_high 7 octet),
  ground (arith, bit_and_high 6 octet),
)

-- A literal with incremental indexing that is parsed, is a field that a table can take and is not
-- larger than the maximum comes into the table, behind the fields that the maximum leaves room
-- for, and is emitted. The context stays sound, the position of the new field joins the reference
-- set, those of the evicted fields leave it and leave what is pending, and every other position
-- stays as it was. The records of the table must stand where they can be read.
pub field-indexing :
    (decode_table : ℕ → ℕ → Entry) (shl_int : ℕ → ℕ) (b : Buffer) (offset octet : ℕ) (c : Context)
    (f g : Field) (con : ℕ) (fs : List Field)
    → offset < length b.bytes
    → peek b offset ≡ done octet
    → 64 ≤ octet
    → octet < 128
    → parse_header_pair decode_table b offset c.table (HeaderField.clean f).1 ≡ done (ok, g, con)
    → IsSound c fs
    → IsField g
    → counted_size g ≤ c.table.max_data
    → AreHeads c.table.bytes.head fs
    → (c' : Context) × (field decode_table shl_int b offset c f
        ≡ done (ok, c', with_rep g rep_inc_indexed, con))
      × IsIndexed c c' fs (with_rep g rep_inc_indexed)
field-indexing decode_table shl_int b offset octet c f g con fs inside e low high parsed sound hf
      small heads =
    let (c', e', is) =
      indexing-IsIndexed (unfinished c) fs g con (unfinished-IsSound sound) hf small heads in
    (
      c',
      runs c' e',
      record {
        sound = is.sound;
        max_kept = is.max_kept;
        reference_is = is.reference_is;
        pending_is = is.pending_is;
      },
    )
  where
    unfinished-IsSound : IsSound c fs → IsSound (unfinished c) fs
    unfinished-IsSound s = record { holds = s.holds; members = s.members; pending = s.pending }

    runs :
        (c' : Context)
        → indexing (unfinished c) g con ≡ done (ok, c', with_rep g rep_inc_indexed, con)
        → field decode_table shl_int b offset c f ≡ done (ok, c', with_rep g rep_inc_indexed, con)
    runs c' e' =
        let more : (offset == length b.bytes) ≡ false = ground arith in
        let (b1, b2, b3) = octet_bits octet low high in
        let g0 = (HeaderField.clean f).1 in
        unfold field field_at literal_field in
        ap (λ m. m >>= (λ o. field_at decode_table shl_int b offset o c g0)) e
        ∙ rw (more, b1, b2)
            (ap (λ m. m >>= (λ x. literal_parsed octet (unfinished c) x.0 x.1 x.2)) parsed
              ∙ (unfold literal_parsed in rw b3 e'))
