-- ===== src/HeaderTable/Update.antt =====
-- libhpack/header_table.c: adding a field to the table, and changing the table's size.
pub mod Store
pub mod Room
use libhpack.Common.{ℕ, zero, suc, ◌+◌, ◌-◌, ◌%◌, ◌^◌, Bool, true, false, ◌&&◌, ◌||◌, List, [], ◌∷◌}
use libhpack.Common.{Option, none, some, ltb, leb, ◌==◌, if◌then◌else◌, get_elem?, take, not}
use libhpack.Common.Ret.{Ret, ok, error, not_found}
use libhpack.Common.Run.{Run, done, fault, stuck, ◌>>=◌, checked}
use libhpack.Buffer
use libhpack.Buffer.{Buffer}
use libhpack.BitmapSet
use libhpack.BitmapSet.{BitmapSet}
use libhpack.HeaderField.{Flags, Field, entry_overhead, get_size}
use libhpack.HeaderTable.DataRing
use libhpack.HeaderTable.DataRing.{DataRing}
use libhpack.HeaderTable.OffsetsRing
use libhpack.HeaderTable.OffsetsRing.{OffsetsRing, index_switch}
use libhpack.HeaderTable.Info.{Info, info_size, to_bytes, of_bytes}
use libhpack.HeaderTable.StaticTable.{static_entries, static_table}
use libhpack.HeaderTable.Table.{Table, clear, evict_while, is_ok, settings_header_table_size}

-- The bytes at `buf`, `n` of them; `none` is a NULL.
abbrev data_of : Buffer → ℕ → Option (List ℕ)
data_of b n = if b.has_memory then some (take n b.bytes) else none

abbrev info_of : Field → Info
info_of f = record {
  name_length = Buffer.len f.name % 2 ^ 16;
  value_length = Buffer.len f.value % 2 ^ 16;
  flags = f.flags;
}

-- The part of `hpack_header_table_add` behind the evictions. A failure leaves what was stored
-- before it: the source returns before it comes to its own roll-back.
unfoldable pub store_field : Table → Field → ℕ → Run (Ret × Table)
store_field t f size =
    let (r1, offsets) = OffsetsRing.add t.offsets t.bytes.tail in
    let info = info_of f in
    do
      (r2, b2) ← DataRing.add t.bytes (some (to_bytes info))
      (r3, b3) ← DataRing.add b2 (data_of f.name info.name_length)
      (r4, b4) ←
          if ltb 0 info.value_length
          then DataRing.add b3 (data_of f.value info.value_length)
          else done (ok, b3)
      if is_ok r1 && is_ok r2 && is_ok r3 && is_ok r4
          then done (
            ok,
            record {
              offsets = offsets;
              bytes = b4;
              num_headers = (t.num_headers + 1) % 2 ^ 16;
              used_data = (t.used_data + size) % 2 ^ 16;
              max_data = t.max_data;
            },
          )
          else done (
            error,
            record {
              offsets = offsets;
              bytes = b4;
              num_headers = t.num_headers;
              used_data = t.used_data;
              max_data = t.max_data;
            },
          )

-- The test of the loop in `hpack_header_table_add`, for a field of `size`.
abbrev pub no_room : ℕ → Table → Bool
no_room size t = ltb t.max_data (size + t.used_data)

-- `hpack_header_table_add`: the status, the table and `evicted_set`. `evicted` is what the local
-- of that name holds, which the source leaves unset.
unfoldable pub add : Table → Field → BitmapSet → ℕ → Run (Ret × Table × BitmapSet)
unfolding get_size clear BitmapSet.clear BitmapSet.fill evict_while store_field
add t f set evicted =
    let size = get_size f in
    let make_room : Run (Ret × Table × BitmapSet) = do
      (r, t', set') ← evict_while (no_room size) (suc t.num_headers) t (BitmapSet.clear set) evicted
      let stored : Run (Ret × Table × BitmapSet) = do
        (r', t'') ← store_field t' f size
        done (r', t'', set')
      if is_ok r
          then (if OffsetsRing.is_full t'.offsets then done (error, t', set') else stored)
          else done (r, t', set')
    in if ltb t.max_data size
      then done (ok, clear t, BitmapSet.fill (BitmapSet.clear set))
      else make_room

abbrev pub over : ℕ → Table → Bool
over max t = ltb max t.used_data

with_max : Table → ℕ → Table
with_max t max = record {
  offsets = t.offsets;
  bytes = t.bytes;
  num_headers = t.num_headers;
  used_data = t.used_data;
  max_data = max;
}

-- `hpack_header_table_set_max`, for a `uint16_t` maximum: the status, the table and `evicted_set`.
unfoldable pub set_max : Table → ℕ → BitmapSet → ℕ → Run (Ret × Table × BitmapSet)
unfolding clear BitmapSet.clear evict_while with_max
set_max t max set evicted =
    let shrink : Run (Ret × Table × BitmapSet) = do
      (r, t', set') ← evict_while (over max) (suc t.num_headers) t (BitmapSet.clear set) evicted
      done (r, (if is_ok r then with_max t' max else t'), set')
    in if ltb settings_header_table_size max
      then done (error, t, BitmapSet.clear set)
      else if max == 0
      then done (ok, with_max (clear t) max, BitmapSet.clear set)
      else shrink
