-- ===== src/HeaderTable/Tests.antt =====
-- Runs of the header table.
use libhpack.Common.{
  ℕ, ◌+◌, ◌-◌, ◌%◌, ◌≤◌, ◌<◌, ◌≡◌, refl, arith, List, [], ◌∷◌, ◌++◌, length, true, false, inl,
}
use libhpack.Common.Ret.{ok}
use libhpack.Common.Run.{done, fault, stuck, ◌>>=◌}
use libhpack.Buffer
use libhpack.Buffer.{Buffer}
use libhpack.BitmapSet.{BitmapSet}
use libhpack.HeaderField.{Field}
use libhpack.HeaderTable.DataRing
use libhpack.HeaderTable.DataRing.{DataRing, put_bytes}
use libhpack.HeaderTable.DataRing.Window.{window}
use libhpack.HeaderTable.DataRing.Read.{IsReadable, get-window, get_cut, get_beyond}
use libhpack.HeaderTable.OffsetsRing
use libhpack.HeaderTable.Info
use libhpack.HeaderTable.Info.{of_bytes-to_bytes}
use libhpack.HeaderTable.StaticTable.{static_table}
use libhpack.HeaderTable.Table.{Table, clear, evict, evict_while}
use libhpack.HeaderTable.Table.Shrink.{
  shrunk, marked, evict_while-Holds, evict_while_endless, evict_underflow,
}
use libhpack.HeaderTable.Holds.{Holds, IsField}
use libhpack.HeaderTable.Update.{add, over, set_max}
use libhpack.HeaderTable.Update.Room.{marks, clear-Holds, add-Holds, set_max-Holds}
use libhpack.HeaderTable.Query.{get}
use libhpack.HeaderTable.Query.Find.{delivered, get-Holds}

abbrev no_set : BitmapSet
no_set = record { entry0 = 0; entry1 = 0 }

abbrev blank : Table
blank = record {
  offsets = record { buffer = λ i. 0; head = 0; tail = 0 };
  bytes = record { buffer = λ i. 0; head = 0; tail = 0 };
  num_headers = 0;
  used_data = 0;
  max_data = 4096;
}

abbrev field_ab : Field
field_ab = record {
  flags = record { name = 2; value = 2; rep = 3 };
  name = record { bytes = 97 ∷ 98 ∷ []; has_memory = true };
  value = record { bytes = 120 ∷ 121 ∷ 122 ∷ []; has_memory = true };
}

abbrev no_field : Field
no_field = record {
  flags = record { name = 0; value = 0; rep = 0 };
  name = record { bytes = []; has_memory = false };
  value = record { bytes = []; has_memory = false };
}

-- The field that was added has HPACK index 1.
get_first :
    (do (r, t, set) ← add blank field_ab no_set 0; get t 1 false no_field false)
    ≡ done (ok, field_ab, false)
unfolding add get OffsetsRing.is_full OffsetsRing.index_switch static_table DataRing.add
    Info.to_bytes OffsetsRing.add DataRing.get Info.of_bytes DataRing.get_chula
get_first = refl

-- A table that holds the field, in 13 bytes at the start of the data, with room for no other.
abbrev table_ab : Table
table_ab = record {
  offsets = record { buffer = λ i. 0; head = 0; tail = 1 };
  bytes = record {
    buffer = put_bytes (λ i. 0) 0 (2 ∷ 0 ∷ 3 ∷ 0 ∷ 58 ∷ 0 ∷ 0 ∷ 0 ∷ 97 ∷ 98 ∷ 120 ∷ 121 ∷ 122 ∷ []);
    head = 0;
    tail = 13;
  };
  num_headers = 1;
  used_data = 37;
  max_data = 60;
}

field_ab-IsField : IsField field_ab
field_ab-IsField = record {
  not_empty = omega arith;
  flags_in = record { name_in = omega arith; value_in = omega arith; rep_in = omega arith };
  name_memory = refl;
  value_memory = λ _. refl;
}

table_ab-Holds : Holds table_ab (field_ab ∷ [])
table_ab-Holds = record {
  chain = (refl, unfold Info.to_bytes in refl, tt);
  offsets_head_in = omega arith;
  offsets_tail = refl;
  data_head_in = omega arith;
  data_tail = refl;
  num = refl;
  used = refl;
  within = omega arith;
  limited = omega arith;
  fields = (field_ab-IsField, tt);
}

blank-Holds : Holds blank []
blank-Holds = unfold clear in (clear-Holds blank).0

add-Holds_example :
    let kept : List Field = shrunk 23 (field_ab ∷ []) in
    (t' : Table) × (add table_ab field_ab no_set 0
      ≡ done (ok, t', marks table_ab (field_ab ∷ []) kept no_set))
    × Holds t' (kept ++ (field_ab ∷ []))
    × (t'.max_data ≡ 60)
    × (t'.offsets.head ≡ (0 + (1 - length kept)) % 128)
add-Holds_example =
    add-Holds table_ab (field_ab ∷ []) field_ab no_set 0 table_ab-Holds field_ab-IsField
      (omega arith) (inl refl, tt)

get-Holds_example :
    get table_ab 1 false no_field true ≡ done (ok, delivered field_ab false no_field, false)
get-Holds_example =
    get-Holds table_ab (field_ab ∷ []) 1 field_ab false no_field true table_ab-Holds (omega arith)
      (omega arith) refl (inl refl)

set_max-Holds_example :
    (t' : Table) × (set_max table_ab 20 no_set 0
      ≡ done (ok, t', marks table_ab (field_ab ∷ []) (shrunk 20 (field_ab ∷ [])) no_set))
    × (20 ≤ 4096
        → Holds t' (shrunk 20 (field_ab ∷ []))
          × (t'.max_data ≡ 20)
          × (0 < 20 → t'.offsets.head ≡ (0 + (1 - length (shrunk 20 (field_ab ∷ [])))) % 128))
set_max-Holds_example =
    set_max-Holds table_ab (field_ab ∷ []) 20 no_set 0 table_ab-Holds (inl refl, tt)

evict_while-Holds_example :
    (t' : Table) × (evict_while (over 20) 2 table_ab no_set 0
      ≡ done (ok, t', marked no_set 0 (1 - length (shrunk 20 (field_ab ∷ [])))))
    × Holds t' (shrunk 20 (field_ab ∷ []))
    × (t'.max_data ≡ 60)
    × (t'.offsets.head ≡ (0 + (1 - length (shrunk 20 (field_ab ∷ [])))) % 128)
evict_while-Holds_example =
    evict_while-Holds (over 20) 20 60 2 table_ab (field_ab ∷ []) no_set 0 (λ s same. refl) refl
      (omega arith) table_ab-Holds (inl refl, tt)

head-IsReadable_ab : IsReadable table_ab.bytes 0 8
head-IsReadable_ab = record {
  offset_in = omega arith;
  head_in = omega arith;
  size_in = omega arith;
  unbroken = inl refl;
}

abbrev field_big : Field
field_big = record {
  flags = field_ab.flags;
  name = field_ab.name;
  value = record {
    bytes =
        0 ∷ 0 ∷ 0 ∷ 0 ∷ 0 ∷ 0 ∷ 0 ∷ 0 ∷ 0 ∷ 0 ∷ 0 ∷ 0 ∷ 0 ∷ 0 ∷ 0 ∷ 0 ∷ 0 ∷ 0 ∷ 0 ∷ 0 ∷ 0 ∷ 0 ∷ 0
        ∷ 0 ∷ 0 ∷ 0 ∷ 0 ∷ 0 ∷ 0 ∷ 0 ∷ [];
    has_memory = true;
  };
}

-- A table without fields that is said to be full.
abbrev broken : Table
broken = record {
  offsets = blank.offsets;
  bytes = blank.bytes;
  num_headers = 0;
  used_data = 65504;
  max_data = 4096;
}

evict_while_endless_example : evict_while (over 4096) 9 broken no_set 0 ≡ stuck
evict_while_endless_example = evict_while_endless (over 4096) 9 broken no_set 0 refl refl

-- A table that holds a field without a byte, as an addition leaves it.
abbrev table_empty : Table
table_empty = record {
  offsets = record { buffer = λ i. 0; head = 0; tail = 1 };
  bytes = record { buffer = λ i. 0; head = 0; tail = 8 };
  num_headers = 1;
  used_data = 0;
  max_data = 4096;
}

evict_underflow_example :
    (t' : Table) × (evict table_empty 0 ≡ done (ok, t', 0))
    × (t'.num_headers ≡ 0)
    × (t'.used_data ≡ 65504)
evict_underflow_example =
    evict_underflow table_empty
      (record { name_length = 0; value_length = 0; flags = no_field.flags })
      (0 ∷ 0 ∷ 0 ∷ 0 ∷ 0 ∷ 0 ∷ 0 ∷ 0 ∷ []) 0 refl refl refl (unfold DataRing.get in refl)
      (unfold Info.of_bytes in refl) refl

-- Data of a ring whose head has moved, and one of six bytes at its end.
abbrev moved : ℕ → ℕ → DataRing
moved head tail = record { buffer = λ i. i % 256; head = head; tail = tail }

get-window_example :
    (DataRing.get (moved 0 50) 4094 [] 4 ≡ done (ok, window (moved 0 50).buffer 4094 4))
    × (DataRing.get_chula (moved 0 50) 4094 Buffer.init 4
        ≡ done (ok, Buffer.add Buffer.init (window (moved 0 50).buffer 4094 4)))
get-window_example = get-window (moved 0 50) 4094 4 [] Buffer.init (record {
  offset_in = omega arith;
  head_in = omega arith;
  size_in = omega arith;
  unbroken = inl refl;
})

get_cut_example :
    DataRing.get (moved 100 4000) 3990 [] 8
    ≡ done (ok, window (moved 100 4000).buffer 3990 6 ++ window (moved 100 4000).buffer 0 2)
get_cut_example =
    get_cut (moved 100 4000) 3990 8 [] (omega arith) (omega arith) (omega arith) (omega arith)

get_beyond_example : DataRing.get (moved 100 50) 4094 [] 8 ≡ fault
get_beyond_example =
    get_beyond (moved 100 50) 4094 8 [] (omega arith) (omega arith) (omega arith) (omega arith)
      (omega arith)
