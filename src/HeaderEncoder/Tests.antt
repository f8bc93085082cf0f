-- ===== src/HeaderEncoder/Tests.antt =====
-- The theorems on the encoder at concrete fields.
use libhpack.Common.{ℕ, ◌+◌, ◌≡◌, refl, arith, true, false, List, [], ◌∷◌, length, some}
use libhpack.Common.Ret.{ok}
use libhpack.Common.Run.{done}
use libhpack.Buffer.{Buffer}
use libhpack.BitmapSet
use libhpack.Huffman.Octets.{octet_codes, octet_table, octet_tables}
use libhpack.HeaderField
use libhpack.HeaderField.{Field}
use libhpack.HeaderParser.{Context}
use libhpack.HeaderParser.Block.{all}
use libhpack.HeaderParser.Block.Stored.{strings_of}
use libhpack.HeaderEncoder.{HeaderEncoder, render}
use libhpack.HeaderEncoder.Strings.{IsRenderable}
use libhpack.HeaderEncoder.Blocks.{all-render}

abbrev nothing : Buffer
nothing = record { bytes = []; has_memory = false }

-- "key" and "v"
abbrev key : Buffer
key = record { bytes = 107 ∷ 101 ∷ 121 ∷ []; has_memory = true }

abbrev value : Buffer
value = record { bytes = 118 ∷ []; has_memory = true }

abbrev no_field : Field
no_field = record {
  flags = record { name = 0; value = 0; rep = 0 };
  name = nothing;
  value = nothing;
}

abbrev one_field : Field
one_field = record { flags = record { name = 0; value = 0; rep = 0 }; name = key; value = value }

abbrev one_shift : ℕ → ℕ
one_shift b = 1

-- An empty table, and both sets empty.
abbrev context : Context
context = record {
  table = record {
    offsets = record { buffer = λ i. 0; head = 0; tail = 0 };
    bytes = record { buffer = λ i. 0; head = 0; tail = 0 };
    num_headers = 0;
    used_data = 0;
    max_data = 4096;
  };
  reference_set = record { entry0 = 0; entry1 = 0 };
  ref_not_emitted = record { entry0 = 0; entry1 = 0 };
  iter_not_emitted = record { bit_pos = 0; entry_pos = 0 };
  finished = false;
}

key-IsRenderable : IsRenderable octet_codes true key.bytes
key-IsRenderable = (omega arith, omega arith)

value-IsRenderable : IsRenderable octet_codes true value.bytes
value-IsRenderable = (omega arith, omega arith)

abbrev encoder : HeaderEncoder
encoder = record { store = one_field ∷ []; tmp = record { buffer = nothing; size = 32 } }

all-render_example :
    (enc' : HeaderEncoder) × (output' : Buffer) × (c' : Context) × (store' : List Field)
    × (consumed : ℕ) × (render octet_codes encoder nothing ≡ done (ok, enc', output'))
    × (all octet_table one_shift output' 0 context (some []) 0
        ≡ done (ok, c', some store', consumed))
    × (strings_of store' ≡ strings_of (one_field ∷ []))
    × (0 + consumed ≡ length output'.bytes)
    × (c'.table ≡ context.table)
    × (c'.reference_set ≡ context.reference_set)
all-render_example =
    all-render octet_tables one_shift encoder nothing context []
      (record { bit_pos = 0; entry_pos = 2 }) (omega arith, omega arith)
      (
        record {
          some_string = unfold HeaderField.is_empty in refl;
          name_fits = key-IsRenderable;
          value_fits = value-IsRenderable;
        },
        tt,
      )
      (omega arith) (unfold BitmapSet.next in refl)
