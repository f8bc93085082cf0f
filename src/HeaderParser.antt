-- ===== src/HeaderParser.antt =====
-- libhpack/header_parser.c: the decoding context and what every representation does with it.
pub mod Strings
pub mod Representations
pub mod Block
pub mod Bounds
pub mod Agreement
mod Tests
use libhpack.Common.{ℕ, ◌+◌, ◌-◌, ◌%◌, ◌^◌, Bool, true, false, not, List, []}
use libhpack.Common.{if◌then◌else◌}
use libhpack.Common.Ret.{Ret, ok, error}
use libhpack.Common.Run.{Run, done, ◌>>=◌}
use libhpack.BitmapSet
use libhpack.BitmapSet.{BitmapSet, Iterator}
use libhpack.HeaderField.{Field}
use libhpack.HeaderTable.Table
use libhpack.HeaderTable.Table.{Table, is_ok}
use libhpack.HeaderTable.Update

-- `hpack_header_parser_context_t`. The iterator goes over `ref_not_emitted`.
pub record Context : Type 0 where
  pub table : Table
  pub reference_set : BitmapSet
  pub ref_not_emitted : BitmapSet
  pub iter_not_emitted : Iterator
  pub finished : Bool

-- `hpack_header_parser_init`, without the store, on the memory `c`.
unfoldable pub init : Context → Ret × Context
unfolding Table.init BitmapSet.init BitmapSet.iter_init
init c =
    let (r, table) = Table.init c.table in
    (
      r,
      record {
        table = table;
        reference_set = BitmapSet.init c.reference_set false;
        ref_not_emitted = BitmapSet.init c.ref_not_emitted false;
        iter_not_emitted = BitmapSet.iter_init;
        finished = false;
      },
    )

-- What a change of the table does to the context: evicted positions leave both sets.
abbrev pub with_evictions : Context → Table → BitmapSet → Context
with_evictions c table evicted_set = record {
  table = table;
  reference_set = BitmapSet.relative_comp c.reference_set evicted_set;
  ref_not_emitted = BitmapSet.relative_comp c.ref_not_emitted evicted_set;
  iter_not_emitted = c.iter_not_emitted;
  finished = c.finished;
}

-- A table that a failed call leaves.
abbrev pub with_table : Context → Table → Context
with_table c table = record {
  table = table;
  reference_set = c.reference_set;
  ref_not_emitted = c.ref_not_emitted;
  iter_not_emitted = c.iter_not_emitted;
  finished = c.finished;
}

-- Both sets of the context.
abbrev pub with_sets : Context → BitmapSet → BitmapSet → Context
with_sets c reference_set ref_not_emitted = record {
  table = c.table;
  reference_set = reference_set;
  ref_not_emitted = ref_not_emitted;
  iter_not_emitted = c.iter_not_emitted;
  finished = c.finished;
}

-- `add_field_process_evictions`: the status, the context and `*added`, which a failure leaves
-- unset. The evicted set and the local of `hpack_header_table_add` are not set before the call.
unfoldable pub add_field_process_evictions : Context → Field → Run (Ret × Context × Bool)
unfolding Update.add BitmapSet.relative_comp BitmapSet.is_full
add_field_process_evictions c field = do
  (r, table, evicted_set) ← Update.add c.table field (record { entry0 = 0; entry1 = 0 }) 0
  if is_ok r
      then done (ok, with_evictions c table evicted_set, not (BitmapSet.is_full evicted_set))
      else done (r, with_table c table, false)
