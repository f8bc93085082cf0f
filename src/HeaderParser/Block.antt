-- ===== src/HeaderParser/Block.antt =====
-- libhpack/header_parser.c: one field of a block, and the whole block, with the store of the
-- fields.
pub mod Progress
pub mod Literal
pub mod Stored
pub mod Ends
pub mod Indexing
pub mod Emission
use libhpack.Common.{
  ℕ, zero, suc, ◌+◌, ◌-◌, ◌%◌, ◌^◌, bit_and, Bool, true, false, not, List, [], ◌∷◌, ◌++◌, length,
}
use libhpack.Common.{if◌then◌else◌, ltb, ◌==◌, Option, none, some}
use libhpack.Common.Ret.{Ret, ok, error, eof, not_found}
use libhpack.Common.Run.{Run, done, stuck, ◌>>=◌}
use libhpack.Buffer
use libhpack.Buffer.{Buffer}
use libhpack.BitmapSet
use libhpack.Huffman.{Entry}
use libhpack.HeaderField
use libhpack.HeaderField.{Field, rep_inc_indexed, rep_wo_indexing, rep_never_indx}
use libhpack.HeaderStore
use libhpack.HeaderTable.Table.{is_ok}
use libhpack.HeaderParser.{Context, add_field_process_evictions}
use libhpack.HeaderParser.Strings.{peek}
use libhpack.HeaderParser.Representations.{
  with_rep, referenced, parse_indexed, parse_header_pair, parse_context_update,
  final_reference_set_process,
}

abbrev is_eof : Ret → Bool
is_eof eof = true
is_eof _ = false

-- The context with `finished` unset.
abbrev pub unfinished : Context → Context
unfinished c = record {
  table = c.table;
  reference_set = c.reference_set;
  ref_not_emitted = c.ref_not_emitted;
  iter_not_emitted = c.iter_not_emitted;
  finished = false;
}

-- A literal with incremental indexing, in `hpack_header_parser_field`, once it is parsed.
indexing : Context → Field → ℕ → Run (Ret × Context × Field × ℕ)
unfolding add_field_process_evictions BitmapSet.add BitmapSet.remove
indexing c f con = do
  (r, c', added) ← add_field_process_evictions c (with_rep f rep_inc_indexed)
  done (
    r,
    (if is_ok r then (if added then referenced c' 1 else c') else c'),
    with_rep f rep_inc_indexed,
    con,
  )

-- What `hpack_header_parser_field` does with a literal that was parsed with status `r`.
literal_parsed : ℕ → Context → Ret → Field → ℕ → Run (Ret × Context × Field × ℕ)
unfolding indexing
literal_parsed octet c r f con =
    let other = with_rep f (if bit_and octet 0xf0 == 0 then rep_wo_indexing else rep_never_indx) in
    if not (is_ok r)
    then done (r, c, f, con)
    else if bit_and octet 0xc0 == 0x40
    then indexing c f con
    else done (ok, c, other, con)

module _ (decode_table : ℕ → ℕ → Entry) (shl_int : ℕ → ℕ) where
  -- The branch of `hpack_header_parser_field` for literals, with the first octet `octet`.
  literal_field : Buffer → ℕ → ℕ → Context → Field → Run (Ret × Context × Field × ℕ)
  unfolding parse_header_pair literal_parsed
  literal_field b offset octet c field = do
    (r, f, con) ← parse_header_pair decode_table b offset c.table field
    literal_parsed octet c r f con

  -- `hpack_header_parser_field`, behind the read of the first octet.
  field_at : Buffer → ℕ → ℕ → Context → Field → Run (Ret × Context × Field × ℕ)
  unfolding literal_field parse_indexed parse_context_update final_reference_set_process
  field_at b offset octet c empty =
      let last : Run (Ret × Context × Field × ℕ) = do
        (r, c', f') ← final_reference_set_process shl_int c empty
        done (r, c', f', 0)
      in let update : Run (Ret × Context × Field × ℕ) = do
        (r, c', con) ← parse_context_update b offset (unfinished c)
        done (r, c', empty, con)
        in if offset == length b.bytes
          then last
          else if bit_and octet 0xe0 == 0x20
          then update
          else if bit_and octet 0x80 == 0
          then literal_field b offset octet (unfinished c) empty
          else parse_indexed b offset (unfinished c) empty

  -- `hpack_header_parser_field`: the status, the context, the field and `*consumed`.
  unfoldable pub field : Buffer → ℕ → Context → Field → Run (Ret × Context × Field × ℕ)
  unfolding field_at HeaderField.clean
  field b offset c f = do octet ← peek b offset; field_at b offset octet c (HeaderField.clean f).1

  -- The loop of `hpack_header_parser_all`, with the rounds that the model allows: the status, the
  -- context, the fields in the store (none if there is no store) and `*consumed`.
  pub all_loop :
      ℕ
      → Buffer
      → ℕ
      → Context
      → Field
      → Option (List Field)
      → ℕ
      → Run (Ret × Context × Option (List Field) × ℕ)
  unfolding field HeaderStore.emit HeaderField.is_empty
  all_loop zero b offset c f store consumed = stuck
  all_loop (suc rounds) b offset c f store consumed = do
    (r, c', f', con) ← field b offset c f
    let store' : Option (List Field) = elim store [
      | none ↦ none
      | some fs ↦ if HeaderField.is_empty f' then some fs else some (HeaderStore.emit fs f').1
    ]
    let again = all_loop rounds b ((offset + con) % 2 ^ 32) c' f' store' ((consumed + con) % 2 ^ 32)
    let over : Ret = if is_eof r then ok else r
    if is_ok r then again else done (over, c', store, consumed)

  -- `hpack_header_parser_all`. Its rounds: one for every octet, one for every position in the table,
  -- one that ends the block, and one more.
  unfoldable pub all :
      Buffer → ℕ → Context → Option (List Field) → ℕ → Run (Ret × Context × Option (List Field) × ℕ)
  unfolding all_loop HeaderField.init
  all b offset c store consumed =
      all_loop (length b.bytes - offset + 130) b offset c HeaderField.init.1 store consumed
