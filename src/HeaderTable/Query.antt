-- ===== src/HeaderTable/Query.antt =====
-- libhpack/header_table.c: looking up a field by its position and by its HPACK index.
pub mod Find
use libhpack.Common.{ℕ, zero, suc, ◌+◌, ◌-◌, ◌%◌, ◌^◌, Bool, true, false, ◌&&◌, ◌||◌, List, [], ◌∷◌}
use libhpack.Common.{Option, none, some, ltb, leb, ◌==◌, if◌then◌else◌, get_elem?, take, not}
use libhpack.Common.Ret.{Ret, ok, error, not_found}
use libhpack.Common.Run.{Run, done, fault, stuck, ◌>>=◌, checked}
use libhpack.Buffer
use libhpack.Buffer.{Buffer}
use libhpack.BitmapSet
use libhpack.BitmapSet.{BitmapSet}
use libhpack.HeaderField.{Flags, Field, entry_overhead, get_size}
use libhpack.HeaderTable.DataRing
use libhpack.HeaderTable.DataRing.{DataRing}
use libhpack.HeaderTable.OffsetsRing
use libhpack.HeaderTable.OffsetsRing.{OffsetsRing, index_switch}
use libhpack.HeaderTable.Info.{Info, info_size, to_bytes, of_bytes}
use libhpack.HeaderTable.StaticTable.{static_entries, static_table}
use libhpack.HeaderTable.Table.{Table, clear, evict_while, is_ok, settings_header_table_size}

-- `hpack_header_table_get_set_idx`: the status and the field.
unfoldable pub get_set_idx : Table → ℕ → Bool → Field → Run (Ret × Field)
unfolding Buffer.add
get_set_idx t n only_name f =
    let offset = t.offsets.buffer n in
    let read : Run (Ret × Field) = do
      (r0, raw) ← DataRing.get t.bytes offset [] info_size
      info ← checked (of_bytes raw)
      let name_at = DataRing.move offset info_size
      (r1, name) ← DataRing.get_chula t.bytes name_at f.name info.name_length
      let named : Field = record { flags = info.flags; name = name; value = f.value }
      let value_at = DataRing.move name_at info.name_length
      let with_value : Run (Ret × Field) = do
        (r2, value) ← DataRing.get_chula t.bytes value_at f.value info.value_length
        done (r2, record { flags = info.flags; name = name; value = value })
      if only_name || not (is_ok r1)
          then done (r1, named)
          else (if ltb 0 info.value_length then with_value else done (r1, named))
    in if leb OffsetsRing.max_entries n
      then done (not_found, f)
      else if ltb t.num_headers (index_switch t.offsets n)
      then done (error, f)
      else read

-- `hpack_header_table_get`, for a `uint16_t` index: the status, the field and `*is_static`.
unfoldable pub get : Table → ℕ → Bool → Field → Bool → Run (Ret × Field × Bool)
unfolding Buffer.add_buffer get_set_idx
get t n only_name f is_static =
    let from_static : Run (Ret × Field × Bool) = do
      s ← checked (get_elem? static_table (n - (t.num_headers + 1)))
      let name = Buffer.add_buffer f.name s.name
      let value = if only_name then f.value else Buffer.add_buffer f.value s.value
      done (ok, record { flags = s.flags; name = name; value = value }, true)
    in let from_table : Run (Ret × Field × Bool) = do
      (r, f') ← get_set_idx t (index_switch t.offsets n) only_name f
      done (r, f', false)
      in if ltb (static_entries + t.num_headers) n
        then done (not_found, f, is_static)
        else if ltb t.num_headers n
        then from_static
        else from_table
