-- ===== src/HeaderParser/Agreement/Tests.antt =====
-- The parser's theorems on the fields of the table, at concrete contexts.
use libhpack.Common.{ltb, if◌then◌else◌, ◌-◌, ◌+◌, ◌%◌, ◌<◌}
use libhpack.Common.{
  ℕ, ◌^◌, ◌≡◌, refl, arith, List, [], ◌∷◌, true, false, ◌||◌, ◌==◌, some, none, inl, get_elem?,
}
use libhpack.Common.Ret.{ok}
use libhpack.Common.Run.{done}
use libhpack.Buffer
use libhpack.Buffer.{Buffer}
use libhpack.BitmapSet
use libhpack.BitmapSet.{BitmapSet}
use libhpack.BitmapSet.Member.{exists-add}
use libhpack.BitmapSet.Algebra.{exists-clear}
use libhpack.Huffman.{Entry}
use libhpack.Integer
use libhpack.HeaderField
use libhpack.HeaderField.{Field, rep_inc_indexed, rep_indexed}
use libhpack.HeaderTable.OffsetsRing.{index_switch}
use libhpack.HeaderTable.DataRing.{put_bytes}
use libhpack.HeaderTable.Info
use libhpack.HeaderTable.StaticTable.{static_table}
use libhpack.HeaderTable.Table.{Table}
use libhpack.HeaderTable.Holds.{Holds, IsField}
use libhpack.HeaderTable.Query.Find.{delivered}
use libhpack.HeaderParser.{Context}
use libhpack.HeaderParser.Agreement.{IsSound}
use libhpack.HeaderParser.Agreement.Newest.{IsIndexed}
use libhpack.HeaderParser.Representations.{
  with_rep, position_of, parse_indexed, parse_header_pair, parse_context_update,
}
use libhpack.HeaderParser.Representations.Referenced.{
  with_static, parse_indexed-referenced, parse_indexed-static, parse_indexed_aliased,
}
use libhpack.HeaderParser.Representations.Resized.{IsResized, parse_context_update-IsResized}
use libhpack.HeaderParser.Block.{field}
use libhpack.HeaderParser.Block.Indexing.{field-indexing}
use libhpack.HeaderParser.Block.Emission.{emission}
use libhpack.HeaderParser.Block.Emission.Rounds.{IsEmission}

abbrev no_table : ℕ → ℕ → Entry
no_table state c = record { state = none; flags = 0; sym = 0 }

abbrev shift : ℕ → ℕ
shift b = 2 ^ b

abbrev field_ab : Field
field_ab = record {
  flags = record { name = 2; value = 2; rep = 3 };
  name = record { bytes = 97 ∷ 98 ∷ []; has_memory = true };
  value = record { bytes = 120 ∷ []; has_memory = true };
}

abbrev no_field : Field
no_field = record {
  flags = record { name = 0; value = 0; rep = 0 };
  name = record { bytes = []; has_memory = false };
  value = record { bytes = []; has_memory = false };
}

-- A table with the field at position 0 and in the first eleven bytes.
abbrev table_ab : Table
table_ab = record {
  offsets = record { buffer = λ i. 0; head = 0; tail = 1 };
  bytes = record {
    buffer = put_bytes (λ i. 0) 0 (2 ∷ 0 ∷ 1 ∷ 0 ∷ 58 ∷ 0 ∷ 0 ∷ 0 ∷ 97 ∷ 98 ∷ 120 ∷ []);
    head = 0;
    tail = 11;
  };
  num_headers = 1;
  used_data = 35;
  max_data = 4096;
}

field_ab-IsField : IsField field_ab
field_ab-IsField = record {
  not_empty = omega arith;
  flags_in = record { name_in = omega arith; value_in = omega arith; rep_in = omega arith };
  name_memory = refl;
  value_memory = λ _. refl;
}

table_ab-Holds : Holds table_ab (field_ab ∷ [])
table_ab-Holds = record {
  chain = (refl, unfold Info.to_bytes in refl, tt);
  offsets_head_in = omega arith;
  offsets_tail = refl;
  data_head_in = omega arith;
  data_tail = refl;
  num = refl;
  used = refl;
  within = omega arith;
  limited = omega arith;
  fields = (field_ab-IsField, tt);
}

abbrev empty_set : BitmapSet
empty_set = record { entry0 = 0; entry1 = 0 }

abbrev first_set : BitmapSet
first_set = record { entry0 = 1; entry1 = 0 }

nothing_in : (i : ℕ) → BitmapSet.exists empty_set i ≡ false
nothing_in i = unfold BitmapSet.clear in exists-clear empty_set i

first_only : (i : ℕ) → BitmapSet.exists first_set i ≡ true → i ≡ 0
first_only i h =
    let (_, m) = exists-add empty_set 0 i in
    let m' : BitmapSet.exists first_set i ≡ (BitmapSet.exists empty_set i || (0 == i)) =
      unfold BitmapSet.add in ground (arith, m) in
    ground (arith, m', nothing_in i)

-- Contexts with that table, without references, and with its field referenced and pending.
abbrev plain : Context
plain = record {
  table = table_ab;
  reference_set = empty_set;
  ref_not_emitted = empty_set;
  iter_not_emitted = record { bit_pos = 0; entry_pos = 0 };
  finished = false;
}

abbrev pending : Context
pending = record {
  table = table_ab;
  reference_set = first_set;
  ref_not_emitted = first_set;
  iter_not_emitted = record { bit_pos = 0; entry_pos = 0 };
  finished = false;
}

plain-IsSound : IsSound plain (field_ab ∷ [])
plain-IsSound = record {
  holds = table_ab-Holds;
  members = λ i h. absurd (cc (h, nothing_in i));
  pending = λ i h. h;
}

pending-IsSound : IsSound pending (field_ab ∷ [])
pending-IsSound = record {
  holds = table_ab-Holds;
  members = λ i h. rw (first_only i h) refl;
  pending = λ i h. h;
}

-- A literal with incremental indexing, two indexes, and an update of the maximum to 3.
abbrev block : Buffer
block = record { bytes = 0x40 ∷ 1 ∷ 97 ∷ 1 ∷ 98 ∷ 0x81 ∷ 0x83 ∷ 0x23 ∷ []; has_memory = true }

abbrev field_a : Field
field_a = record {
  flags = record { name = 2; value = 2; rep = 0 };
  name = record { bytes = 97 ∷ []; has_memory = true };
  value = record { bytes = 98 ∷ []; has_memory = true };
}

pair_run :
    parse_header_pair no_table block 0 plain.table (HeaderField.clean no_field).1
    ≡ done (ok, field_a, 5)
unfolding parse_header_pair HeaderField.clean Integer.decode
pair_run = refl

field_a-IsField : IsField field_a
field_a-IsField = record {
  not_empty = omega arith;
  flags_in = record { name_in = omega arith; value_in = omega arith; rep_in = omega arith };
  name_memory = refl;
  value_memory = λ _. refl;
}

field-indexing_example :
    (c' : Context) × (field no_table shift block 0 plain no_field
      ≡ done (ok, c', with_rep field_a rep_inc_indexed, 5))
    × IsIndexed plain c' (field_ab ∷ []) (with_rep field_a rep_inc_indexed)
field-indexing_example =
    field-indexing no_table shift block 0 0x40 plain no_field field_a 5 (field_ab ∷ [])
      (omega arith) refl (omega arith) (omega arith) pair_run plain-IsSound field_a-IsField
      (omega arith) (inl refl, tt)

parse_indexed-referenced_example :
    (c' : Context) × (parse_indexed block 5 plain no_field
      ≡ done (ok, c', delivered field_ab false (with_rep no_field rep_indexed), 1))
    × IsSound c' (field_ab ∷ [])
    × (c'.table ≡ table_ab)
    × ((i : ℕ)
        → (BitmapSet.exists c'.reference_set i
            ≡ (BitmapSet.exists empty_set i || (position_of plain 1 == i)))
          × (BitmapSet.exists c'.ref_not_emitted i ≡ BitmapSet.exists empty_set i))
parse_indexed-referenced_example =
    parse_indexed-referenced block 5 plain no_field field_ab 1 1 (field_ab ∷ [])
      (unfold Integer.decode in refl) plain-IsSound (omega arith) (omega arith)
      (nothing_in (position_of plain 1)) refl (inl refl)

abbrev method_get : Field
method_get = record {
  flags = record { name = 1; value = 1; rep = 2 };
  name = record { bytes = 58 ∷ 109 ∷ 101 ∷ 116 ∷ 104 ∷ 111 ∷ 100 ∷ []; has_memory = true };
  value = record { bytes = 71 ∷ 69 ∷ 84 ∷ []; has_memory = true };
}

method_get_there : get_elem? static_table 1 ≡ some method_get
unfolding static_table
method_get_there = refl

method_get-IsField : IsField (with_static no_field method_get)
method_get-IsField =
    unfold Buffer.add_buffer in
    record {
      not_empty = omega arith;
      flags_in = record { name_in = omega arith; value_in = omega arith; rep_in = omega arith };
      name_memory = refl;
      value_memory = λ _. refl;
    }

parse_indexed-static_example :
    (c' : Context) × (parse_indexed block 6 plain no_field
      ≡ done (ok, c', with_static no_field method_get, 1))
    × IsIndexed plain c' (field_ab ∷ []) (with_static no_field method_get)
parse_indexed-static_example =
    parse_indexed-static block 6 plain no_field method_get 3 1 (field_ab ∷ [])
      (unfold Integer.decode in refl) plain-IsSound (omega arith) (omega arith)
      (nothing_in (position_of plain 3)) method_get_there method_get-IsField
      (unfold Buffer.add_buffer in omega arith) (inl refl, tt)

-- A table of 70 fields, with its second newest in the reference set.
abbrev long_context : Context
long_context = record {
  table = record {
    offsets = record { buffer = λ i. 0; head = 0; tail = 70 };
    bytes = record { buffer = λ i. 0; head = 0; tail = 770 };
    num_headers = 70;
    used_data = 2450;
    max_data = 4096;
  };
  reference_set = record { entry0 = 0; entry1 = 16 };
  ref_not_emitted = empty_set;
  iter_not_emitted = record { bit_pos = 0; entry_pos = 0 };
  finished = false;
}

abbrev index_block : Buffer
index_block = record { bytes = 0xff ∷ 3 ∷ []; has_memory = true }

parse_indexed_aliased_example :
    (c' : Context) × (parse_indexed index_block 0 long_context no_field
      ≡ done (ok, c', no_field, 2))
    × (BitmapSet.exists c'.reference_set (position_of long_context 2) ≡ false)
    × (c'.table ≡ long_context.table)
parse_indexed_aliased_example =
    parse_indexed_aliased index_block 0 long_context no_field 130 2 (unfold Integer.decode in refl)
      (omega arith) (omega arith) (omega arith) (omega arith)
      (unfold BitmapSet.exists index_switch in refl)

parse_context_update-IsResized_example :
    (c' : Context) × (parse_context_update block 7 plain ≡ done (ok, c', 1))
    × IsResized plain c' (field_ab ∷ []) 3
parse_context_update-IsResized_example =
    parse_context_update-IsResized block 7 0x23 plain 3 1 (field_ab ∷ []) refl refl
      (unfold Integer.decode in refl) (omega arith) (omega arith) plain-IsSound (inl refl, tt)

-- The `int` shifts of compilers; from 32 on, C says nothing, and 0 stands for that.
abbrev int_shift : ℕ → ℕ
int_shift k = if ltb k 31 then 2 ^ k else if k == 31 then 2 ^ 64 - 2 ^ 31 else 0

emission_example :
    (c' : Context) × (stored' : List Field) × IsEmission no_table int_shift block pending no_field
      []
      (field_ab ∷ [])
      129
      8
      c'
      stored'
emission_example =
    emission no_table int_shift 129 block pending no_field [] (field_ab ∷ []) 8 (omega arith)
      (omega arith) (λ k h. ground arith) (λ j there. low j (first_only j there)) pending-IsSound
      (λ k f e. inl refl) refl (omega arith) (omega arith) (omega arith)
  where
    low : (j : ℕ) → j ≡ 0 → (j + 1) % 64 < 31
    low j e = omega arith
