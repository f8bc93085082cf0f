-- ===== src/HeaderTable/Table.antt =====
-- libhpack/header_table.c, the header table: its state, and evictions.
pub mod Evict
pub mod Shrink
pub mod Marked
use libhpack.Common.{ℕ, zero, suc, ◌+◌, ◌-◌, ◌%◌, ◌^◌, Bool, true, false, ◌&&◌, ◌||◌, List, [], ◌∷◌}
use libhpack.Common.{Option, none, some, ltb, leb, ◌==◌, if◌then◌else◌, get_elem?, take, not}
pub use libhpack.Common.Ret.{is_ok}
use libhpack.Common.Ret.{Ret, ok, error, not_found}
use libhpack.Common.Run.{Run, done, fault, stuck, ◌>>=◌, checked}
use libhpack.Buffer
use libhpack.Buffer.{Buffer}
use libhpack.BitmapSet
use libhpack.BitmapSet.{BitmapSet}
use libhpack.HeaderField.{Flags, Field, entry_overhead, get_size}
use libhpack.HeaderTable.DataRing
use libhpack.HeaderTable.DataRing.{DataRing}
use libhpack.HeaderTable.OffsetsRing
use libhpack.HeaderTable.OffsetsRing.{OffsetsRing, index_switch}
use libhpack.HeaderTable.Info.{Info, info_size, to_bytes, of_bytes}
use libhpack.HeaderTable.StaticTable.{static_entries, static_table}

-- `SETTINGS_HEADER_TABLE_SIZE`
abbrev pub settings_header_table_size : ℕ
settings_header_table_size = 4096

-- `hpack_header_table_t`
pub record Table : Type 0 where
  pub offsets : OffsetsRing
  pub bytes : DataRing
  pub num_headers : ℕ
  pub used_data : ℕ
  pub max_data : ℕ

-- `hpack_header_table_clear`. The arrays keep what they held.
unfoldable pub clear : Table → Table
clear t = record {
  offsets = record { buffer = t.offsets.buffer; head = 0; tail = 0 };
  bytes = record { buffer = t.bytes.buffer; head = 0; tail = 0 };
  num_headers = 0;
  used_data = 0;
  max_data = settings_header_table_size;
}

-- `hpack_header_table_init` and `hpack_header_table_mrproper`
unfoldable pub init : Table → Ret × Table
unfolding clear
init t = (ok, clear t)

unfoldable pub mrproper : Table → Ret × Table
unfolding clear
mrproper t = (ok, clear t)

-- The state after an eviction of the field that stands at the heads, from what its record says.
removed : Table → Info → Table
removed t info =
    let size = info.name_length + info.value_length in
    record {
      offsets = record {
        buffer = t.offsets.buffer;
        head = OffsetsRing.move t.offsets.head 1;
        tail = t.offsets.tail;
      };
      bytes = record {
        buffer = t.bytes.buffer;
        head = DataRing.move t.bytes.head (info_size + size);
        tail = t.bytes.tail;
      };
      num_headers = t.num_headers - 1;
      used_data = (t.used_data + 2 ^ 32 - (size + entry_overhead)) % 2 ^ 16;
      max_data = t.max_data;
    }

-- `header_table_evict`. `evicted` is what `*ret_evicted` holds, before and after. The source does
-- not look at the status of the read either.
unfoldable pub evict : Table → ℕ → Run (Ret × Table × ℕ)
unfolding removed
evict t evicted =
    let e = t.offsets.head in
    let take_out : Run (Ret × Table × ℕ) = do
      (r, raw) ← DataRing.get t.bytes (t.offsets.buffer e) [] info_size
      info ← checked (of_bytes raw)
      done (ok, removed t info, e)
    in if t.num_headers == 0
      then done (ok, t, evicted)
      else if t.bytes.head == t.offsets.buffer e
      then take_out
      else done (error, t, evicted)

-- The loops that evict while `full` says so, with the rounds that the model allows: `stuck` is a
-- loop that asks for more.
unfoldable pub evict_while :
    (Table → Bool) → ℕ → Table → BitmapSet → ℕ → Run (Ret × Table × BitmapSet)
unfolding evict BitmapSet.add
evict_while full zero t set evicted = if full t then stuck else done (ok, t, set)
evict_while full (suc rounds) t set evicted =
    let again : Run (Ret × Table × BitmapSet) = do
      (r, t', evicted') ← evict t evicted
      elim r [
        | ok ↦ evict_while full rounds t' (BitmapSet.add set evicted').1 evicted'
        | other ↦ done (other, t', set)
      ]
    in if full t then again else done (ok, t, set)
