-- ===== src/HeaderParser/Tests.antt =====
-- The parser's theorems at concrete blocks.
use libhpack.Common.{
  ℕ, ◌+◌, ◌≤◌, ◌≡◌, refl, arith, [], ◌∷◌, true, false, not, ◌&&◌, ◌==◌, none, some, ◌≢◌, ◌⊎◌,
}
use libhpack.Common.Ret.{error, ok}
use libhpack.Common.Run.{done, fault, stuck, IsDone}
use libhpack.Buffer.{Buffer}
use libhpack.BitmapSet
use libhpack.BitmapSet.{BitmapSet}
use libhpack.Huffman.{Entry}
use libhpack.Integer
use libhpack.HeaderField.{Field}
use libhpack.HeaderTable.OffsetsRing.{index_switch}
use libhpack.HeaderTable.OffsetsRing
use libhpack.HeaderTable.DataRing
use libhpack.HeaderTable.Info
use libhpack.HeaderParser.{Context}
use libhpack.HeaderParser.Strings.{parse_string}
use libhpack.HeaderParser.Representations.{position_of, parse_indexed}
use libhpack.HeaderParser.Representations.Indexed.{parse_indexed-dropped}
use libhpack.HeaderField
use libhpack.HeaderParser.Strings.Safe.{IsWrapped, IsStopped, parse_string-IsWrapped}
use libhpack.HeaderParser.Block.{field, all}
use libhpack.HeaderParser.Block.Ends.{IsEndless, all_ends}
use libhpack.HeaderParser.Block.Progress.{field_bounds}

abbrev no_table : ℕ → ℕ → Entry
no_table state c = record { state = none; flags = 0; sym = 0 }

abbrev no_shift : ℕ → ℕ
no_shift b = 1

-- A context whose table has a field at position 0, which is in the reference set.
abbrev context : Context
context = record {
  table = record {
    offsets = record { buffer = λ i. 0; head = 0; tail = 1 };
    bytes = record { buffer = λ i. 0; head = 0; tail = 13 };
    num_headers = 1;
    used_data = 37;
    max_data = 4096;
  };
  reference_set = record { entry0 = 1; entry1 = 0 };
  ref_not_emitted = record { entry0 = 1; entry1 = 0 };
  iter_not_emitted = record { bit_pos = 0; entry_pos = 0 };
  finished = false;
}

abbrev no_field : Field
no_field = record {
  flags = record { name = 0; value = 0; rep = 0 };
  name = record { bytes = []; has_memory = false };
  value = record { bytes = []; has_memory = false };
}

-- A literal that is not indexed, with the name "a" and the value "b", and an index behind it.
abbrev block : Buffer
block = record { bytes = 0 ∷ 1 ∷ 97 ∷ 1 ∷ 98 ∷ 0x81 ∷ []; has_memory = true }

abbrev field_a : Field
field_a = record {
  flags = record { name = 2; value = 2; rep = 4 };
  name = record { bytes = 97 ∷ []; has_memory = true };
  value = record { bytes = 98 ∷ []; has_memory = true };
}

literal_run : field no_table no_shift block 0 context no_field ≡ done (ok, context, field_a, 5)
unfolding field Integer.decode
literal_run = refl

field_bounds_example : (1 ≤ 5) × (0 + 5 ≤ 6)
field_bounds_example =
    field_bounds no_table no_shift block 0 context no_field (omega arith) (omega arith)
      (omega arith) literal_run

string_run :
    parse_string no_table block 1 no_field.name
    ≡ done (ok, record { bytes = 97 ∷ []; has_memory = true }, false, 2)
unfolding parse_string Integer.decode
string_run = refl

parse_indexed-dropped_example :
    (c' : Context) × (parse_indexed block 5 context no_field ≡ done (ok, c', no_field, 1))
    × (BitmapSet.exists c'.reference_set 0
        ≡ (BitmapSet.exists context.reference_set 0 && not (position_of context 1 == 0)))
    × (BitmapSet.exists c'.ref_not_emitted 0
        ≡ (BitmapSet.exists context.ref_not_emitted 0 && not (position_of context 1 == 0)))
    × (c'.table ≡ context.table)
parse_indexed-dropped_example =
    parse_indexed-dropped block 5 context no_field 1 1 0 (unfold Integer.decode in refl)
      (omega arith) (unfold BitmapSet.exists index_switch in refl)

-- The length 2 ^ 32 - 1 for a string, and nothing behind it.
abbrev long_string : Buffer
long_string = record { bytes = 0x7f ∷ 0x80 ∷ 0xff ∷ 0xff ∷ 0xff ∷ 0x0f ∷ []; has_memory = true }

overrun : parse_string no_table long_string 0 no_field.name ≡ fault
unfolding parse_string Integer.decode
overrun = refl

-- The same length with the bit for Huffman codes: the decoder refuses the first octet, and nothing is
-- read from outside the block.
stopped :
    parse_string no_table
      (record { bytes = 0xff ∷ 0x80 ∷ 0xff ∷ 0xff ∷ 0xff ∷ 0x0f ∷ 0xff ∷ []; has_memory = true })
      0
      no_field.name
    ≡ done (error, no_field.name, true, 0)
unfolding parse_string Integer.decode
stopped = refl

parse_string-IsWrapped_example :
    (IsWrapped long_string 0
      × (¬ IsStopped no_table long_string 0 no_field.name)
      × (parse_string no_table long_string 0 no_field.name ≡ fault))
    ⊎ (((¬ IsWrapped long_string 0) ⊎ IsStopped no_table long_string 0 no_field.name)
        × IsDone (parse_string no_table long_string 0 no_field.name))
parse_string-IsWrapped_example =
    parse_string-IsWrapped no_table long_string 0 no_field.name (omega arith) (omega arith)
      (omega arith)

all_ends_example :
    (all no_table no_shift block 0 context (some []) 0 ≢ stuck)
    ⊎ IsEndless no_table no_shift block 0 context HeaderField.init.1
all_ends_example =
    all_ends no_table no_shift block (omega arith) (omega arith) 0 context (some []) 0 (omega arith)

-- An empty field between two others in the table, and then less room than the last one needs.
abbrev endless_block : Buffer
endless_block = record {
  bytes =
      0x40 ∷ 1 ∷ 97 ∷ 1 ∷ 98 ∷ 0x40 ∷ 0 ∷ 0 ∷ 0x40 ∷ 2 ∷ 97 ∷ 98 ∷ 3 ∷ 120 ∷ 121 ∷ 122 ∷ 0x2f ∷ 18
      ∷ 0x24 ∷ [];
  has_memory = true;
}

abbrev fresh : Context
fresh = record {
  table = record {
    offsets = record { buffer = λ i. 0; head = 0; tail = 0 };
    bytes = record { buffer = λ i. 0; head = 0; tail = 0 };
    num_headers = 0;
    used_data = 0;
    max_data = 4096;
  };
  reference_set = record { entry0 = 0; entry1 = 0 };
  ref_not_emitted = record { entry0 = 0; entry1 = 0 };
  iter_not_emitted = record { bit_pos = 0; entry_pos = 0 };
  finished = false;
}

endless_run : all no_table no_shift endless_block 0 fresh none 0 ≡ stuck
unfolding all Integer.decode OffsetsRing.is_full DataRing.add Info.to_bytes OffsetsRing.add
    DataRing.get Info.of_bytes
endless_run = refl
