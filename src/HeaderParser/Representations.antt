-- ===== src/HeaderParser/Representations.antt =====
-- libhpack/header_parser.c: one representation, and one step of the final emission.
pub mod Indexed
pub mod Pair
pub mod Sizes
pub mod New
pub mod Referenced
pub mod Final
pub mod Resized
use libhpack.Common.{ℕ, ◌+◌, ◌-◌, ◌%◌, ◌^◌, bit_and, Bool, true, false, not, List, [], ◌∷◌, length}
use libhpack.Common.{if◌then◌else◌, ltb, ◌==◌, ◌&&◌, Option, none, some}
use libhpack.Common.Ret.{Ret, ok, error, eof}
use libhpack.Common.Run.{Run, done, ◌>>=◌}
use libhpack.Buffer
use libhpack.Buffer.{Buffer}
use libhpack.BitmapSet
use libhpack.BitmapSet.{BitmapSet}
use libhpack.Huffman.{Entry}
use libhpack.HeaderField.{
  Field, is_new, is_new_huffman, is_indexed_static, is_indexed_ht, rep_indexed,
}
use libhpack.HeaderTable.OffsetsRing.{index_switch}
use libhpack.HeaderTable.StaticTable.{static_entries}
use libhpack.HeaderTable.Table.{Table, is_ok}
use libhpack.HeaderTable.Query
use libhpack.HeaderTable.Update
use libhpack.HeaderParser.{
  Context, with_evictions, with_table, with_sets, add_field_process_evictions,
}
use libhpack.HeaderParser.Strings.{peek, decode_at, parse_string}

-- A field with other types in its flags, or another representation.
abbrev pub with_rep : Field → ℕ → Field
with_rep f rep = record {
  flags = record { name = f.flags.name; value = f.flags.value; rep = rep };
  name = f.name;
  value = f.value;
}

abbrev pub with_name_type : Field → ℕ → Field
with_name_type f type = record {
  flags = record { name = type; value = f.flags.value; rep = f.flags.rep };
  name = f.name;
  value = f.value;
}

abbrev pub with_value_type : Field → ℕ → Field
with_value_type f type = record {
  flags = record { name = f.flags.name; value = type; rep = f.flags.rep };
  name = f.name;
  value = f.value;
}

-- The position that the macros for sets make of an HPACK index. They keep its low bits only.
abbrev pub position_of : Context → ℕ → ℕ
position_of c num = index_switch c.table.offsets (num % 2 ^ 16)

-- Index `num` comes into the reference set and leaves those to be emitted.
abbrev pub referenced : Context → ℕ → Context
referenced c num =
    with_sets c (BitmapSet.add c.reference_set (position_of c num)).1
      (BitmapSet.remove c.ref_not_emitted (position_of c num)).1

-- Index `num` leaves both sets.
abbrev pub dropped : Context → ℕ → Context
dropped c num =
    with_sets c (BitmapSet.remove c.reference_set (position_of c num)).1
      (BitmapSet.remove c.ref_not_emitted (position_of c num)).1

-- The part of `parse_indexed` behind the lookup of an index that is not in the reference set.
looked_up : Context → ℕ → ℕ → Ret → Field → Bool → Run (Ret × Context × Field × ℕ)
unfolding add_field_process_evictions BitmapSet.add BitmapSet.remove
looked_up c num con r f is_static =
    let insert : Run (Ret × Context × Field × ℕ) = do
      (r', c', _) ← add_field_process_evictions c f
      if is_ok r' then done (ok, referenced c' 1, f, con) else done (r', c', f, 0)
    in if not (is_ok r)
      then done (r, c, f, 0)
      else if is_static
      then insert
      else done (ok, referenced c num, f, con)

-- The part behind the index, which was decoded with status `r` from `con` octets. Removals of
-- positions, which are below 128, do not fail.
indexed_at : Context → Field → Ret → ℕ → ℕ → Run (Ret × Context × Field × ℕ)
unfolding looked_up BitmapSet.exists Query.get
indexed_at c field r num con =
    let emit_indexed : Run (Ret × Context × Field × ℕ) = do
      (r', f, is_static) ← Query.get c.table (num % 2 ^ 16) false (with_rep field rep_indexed) false
      looked_up c num con r' f is_static
    in if not (is_ok r)
      then done (error, c, field, 0)
      else if ltb (static_entries + c.table.num_headers) num
      then done (error, c, field, 0)
      else if BitmapSet.exists c.reference_set (position_of c num)
      then done (ok, dropped c num, field, con)
      else emit_indexed

-- `parse_indexed`: the status, the context, the field and `*consumed`.
unfoldable pub parse_indexed : Buffer → ℕ → Context → Field → Run (Ret × Context × Field × ℕ)
unfolding indexed_at
parse_indexed b offset c field = do
  (r, num, con) ← decode_at b 7 offset
  indexed_at c field r num con

module _ (decode_table : ℕ → ℕ → Entry) where
  -- A name of the table, in `parse_header_pair`: the status, the field, and the offset behind it.
  indexed_name : Buffer → ℕ → Table → Field → ℕ → Run (Ret × Field × ℕ)
  unfolding Query.get
  indexed_name b offset t field prefix =
      let named = λ (index : ℕ) (con : ℕ). do
        (r, f, is_static) ← Query.get t (index % 2 ^ 16) true field false
        done (
          r,
          with_name_type f (if is_static then is_indexed_static else is_indexed_ht),
          (offset + con) % 2 ^ 32,
        )
      in do
        (r, index, con) ← decode_at b prefix offset
        if is_ok r then named index con else done (error, field, offset)

  -- A name in the block.
  literal_name : Buffer → ℕ → Field → Run (Ret × Field × ℕ)
  unfolding parse_string
  literal_name b offset field = do
    (r, name, huffman, con) ← parse_string decode_table b ((offset + 1) % 2 ^ 32) field.name
    let f : Field = record { flags = field.flags; name = name; value = field.value }
    if is_ok r
        then done (
          ok,
          with_name_type f (if huffman then is_new_huffman else is_new),
          (offset + 1 + con) % 2 ^ 32,
        )
        else done (r, f, offset)

  pair_name : Buffer → ℕ → Table → Field → Run (Ret × Field × ℕ)
  unfolding indexed_name literal_name
  pair_name b offset t field = do
    first ← peek b offset
    if bit_and first 0x0f == 0
        then literal_name b offset field
        else indexed_name b offset t field (if bit_and first 0xc0 == 0 then 4 else 6)

  -- The value in `parse_header_pair`, from `n` on.
  pair_value : Buffer → ℕ → Field → ℕ → Run (Ret × Field × ℕ)
  unfolding parse_string
  pair_value b offset f n = do
    (r, value, huffman, con) ← parse_string decode_table b n f.value
    let f' : Field = record { flags = f.flags; name = f.name; value = value }
    if is_ok r
        then done (
          ok,
          with_value_type f' (if huffman then is_new_huffman else is_new),
          (n + con + 2 ^ 32 - offset) % 2 ^ 32,
        )
        else done (r, f', 0)

  -- `parse_header_pair`: the status, the field and `*consumed`. The context is only read.
  unfoldable pub parse_header_pair : Buffer → ℕ → Table → Field → Run (Ret × Field × ℕ)
  unfolding pair_name pair_value
  parse_header_pair b offset t field = do
    (r, f, n) ← pair_name b offset t field
    if is_ok r then pair_value b offset f n else done (r, f, 0)

-- The part of `parse_context_update` behind the new maximum, which is made a `uint16_t` by the call.
apply_max : Context → ℕ → ℕ → Run (Ret × Context × ℕ)
unfolding Update.set_max
apply_max c num con = do
  (r, table, evicted_set) ←
      Update.set_max c.table (num % 2 ^ 16) (record { entry0 = 0; entry1 = 0 }) 0
  if is_ok r
      then done (ok, with_evictions c table evicted_set, con)
      else done (error, with_table c table, 0)

new_max : Buffer → ℕ → Context → Run (Ret × Context × ℕ)
unfolding apply_max
new_max b offset c = do
  (r, num, con) ← decode_at b 4 offset
  if is_ok r then apply_max c num con else done (error, c, 0)

-- `parse_context_update`: the status, the context and `*consumed`.
unfoldable pub parse_context_update : Buffer → ℕ → Context → Run (Ret × Context × ℕ)
unfolding new_max BitmapSet.clear
parse_context_update b offset c = do
  first ← peek b offset
  if first == 0x30
      then done
          (ok, with_sets c (BitmapSet.clear c.reference_set) (BitmapSet.clear c.ref_not_emitted), 1)
      else new_max b offset c

module _ (shl_int : ℕ → ℕ) where
  -- `final_reference_set_process`: the status, the context and the field; it consumes nothing. The
  -- status of the lookup is not used.
  unfoldable pub final_reference_set_process : Context → Field → Run (Ret × Context × Field)
  unfolding Query.get BitmapSet.next BitmapSet.remove BitmapSet.clone BitmapSet.iter_reset
  final_reference_set_process c field =
      let (it, found) = BitmapSet.next shl_int c.ref_not_emitted c.iter_not_emitted in
      let moved : Context = record {
        table = c.table;
        reference_set = c.reference_set;
        ref_not_emitted = c.ref_not_emitted;
        iter_not_emitted = it;
        finished = c.finished;
      } in
      let over : Context = record {
        table = c.table;
        reference_set = c.reference_set;
        ref_not_emitted = BitmapSet.clone c.ref_not_emitted c.reference_set;
        iter_not_emitted = BitmapSet.iter_reset it;
        finished = true;
      } in
      let emit = λ (i : ℕ). do
        let idx = index_switch c.table.offsets i
        (_, f, _) ← Query.get c.table idx false field false
        done (
          ok,
          with_sets moved moved.reference_set
              (BitmapSet.remove moved.ref_not_emitted (position_of moved idx)).1,
          f,
        )
      in if c.finished
        then done (eof, c, field)
        else elim found [ none ↦ done (eof, over, field) | some i ↦ emit i ]
