-- ===== src/HeaderParser/Block/Progress.antt =====
-- Every field of a block consumes some of it.
use libhpack.Common.{ℕ, ◌∙◌, ◌+◌, ◌^◌, ◌≤◌, ◌<◌, ◌≡◌, arith, length, All, false, bit_and, ◌==◌}
use libhpack.Common.{ap, Bool-cases, inl, inr}
use libhpack.Common.Ret.{Ret, ok}
use libhpack.Common.Run.{Run, done}
use libhpack.Buffer.{Buffer}
use libhpack.Huffman.{Entry}
use libhpack.HeaderField.{Field, rep_indexed}
use libhpack.Integer.Decode.{IsByte}
use libhpack.HeaderTable.Table.{is_ok}
use libhpack.HeaderParser.{Context, add_field_process_evictions}
use libhpack.HeaderParser.Strings.{peek}
use libhpack.HeaderParser.Bounds.{bind-done, ok_of}
use libhpack.HeaderParser.Representations.{with_rep, parse_header_pair, parse_context_update}
use libhpack.HeaderParser.Representations.Indexed.{parse_indexed_bounds}
use libhpack.HeaderParser.Representations.Pair.{parse_header_pair_bounds}
use libhpack.HeaderParser.Representations.Sizes.{parse_context_update_bounds}
use libhpack.HeaderField.{rep_inc_indexed}
use libhpack.HeaderField
use libhpack.HeaderParser.Block.{
  indexing, literal_parsed, literal_field, unfinished, field_at, field,
}

indexing_con :
    (c : Context) (f : Field) (con : ℕ) {c' : Context} {f' : Field} {k : ℕ}
    → indexing c f con ≡ done (ok, c', f', k)
    → k ≡ con
unfolding indexing
indexing_con c f con e =
    let ((r, c1, added), e1, f1) =
      bind-done (add_field_process_evictions c (with_rep f rep_inc_indexed)) _ e in
    cc f1

literal_parsed_con :
    (octet : ℕ) (c : Context) (r : Ret) (f : Field) (con : ℕ) {c' : Context} {f' : Field} {k : ℕ}
    → literal_parsed octet c r f con ≡ done (ok, c', f', k)
    → (r ≡ ok) × (k ≡ con)
unfolding literal_parsed
literal_parsed_con octet c r f con e = elim (Bool-cases (is_ok r)) [
  | inr bad ↦ absurd (failed bad (cc (rw bad at e)))
  | inl fine ↦ elim (Bool-cases (bit_and octet 0xc0 == 0x40)) [
    | inl into ↦ (ok_of r fine, indexing_con c f con (rw (fine, into) at e))
    | inr out ↦ (ok_of r fine, cc (rw (fine, out) at e))
  ]
]
  where
    failed : {r : Ret} → is_ok r ≡ false → r ≡ ok → ⊥
    failed bad e' = cc

update_con :
    (r : Ret) (c1 : Context) (f : Field) (con : ℕ) {c' : Context} {f' : Field} {k : ℕ}
    → (let m : Run (Ret × Context × Field × ℕ) = done (r, c1, f, con) in m) ≡ done (ok, c', f', k)
    → (r ≡ ok) × (k ≡ con)
update_con r c1 f con e = (cc, cc)

not_at_end : (a b : ℕ) → a < b → (a == b) ≡ false
not_at_end a b h = ground arith

module _ (decode_table : ℕ → ℕ → Entry) (shl_int : ℕ → ℕ) where
  literal_field_bounds :
      (b : Buffer) (offset octet : ℕ) (c : Context) (f : Field) {c' : Context} {f' : Field} {k : ℕ}
      → All IsByte b.bytes
      → length b.bytes < 2 ^ 31
      → offset < length b.bytes
      → literal_field decode_table shl_int b offset octet c f ≡ done (ok, c', f', k)
      → (1 ≤ k) × (offset + k ≤ length b.bytes)
  unfolding literal_field
  literal_field_bounds b offset octet c f {c'} {f'} {k} hb small hn e =
      let ((r, g, con), e1, f1) =
        bind-done (parse_header_pair decode_table b offset c.table f) _ e in
      parsed r g con e1 (literal_parsed_con octet c r g con f1)
    where
      parsed :
          (r : Ret) (g : Field) (con : ℕ)
          → parse_header_pair decode_table b offset c.table f ≡ done (r, g, con)
          → (r ≡ ok) × (k ≡ con)
          → (1 ≤ k) × (offset + k ≤ length b.bytes)
      parsed r g con e1 (fine, size) =
          let is : parse_header_pair decode_table b offset c.table f ≡ done (ok, g, con) =
            e1 ∙ ap (λ x. done (x, g, con)) fine in
          let (h1, inside) =
            parse_header_pair_bounds decode_table b hb small offset c.table f hn is in
          omega arith

  field_at_bounds :
      (b : Buffer) (offset octet : ℕ) (c : Context) (f : Field) {c' : Context} {f' : Field} {k : ℕ}
      → All IsByte b.bytes
      → length b.bytes < 2 ^ 31
      → offset < length b.bytes
      → field_at decode_table shl_int b offset octet c f ≡ done (ok, c', f', k)
      → (1 ≤ k) × (offset + k ≤ length b.bytes)
  unfolding field_at
  field_at_bounds b offset octet c f {c'} {f'} {k} hb small hn e =
      let more = not_at_end offset (length b.bytes) hn in
      elim (Bool-cases (bit_and octet 0xe0 == 0x20)) [
        | inl updates ↦
            let ((r, c1, con), e2, f2) =
              bind-done (parse_context_update b offset (unfinished c)) _
                (rw (more, updates) at e) in
            updated r c1 con e2 (update_con r c1 f con f2)
        | inr literals ↦ elim (Bool-cases (bit_and octet 0x80 == 0)) [
          | inl literal ↦
              literal_field_bounds b offset octet (unfinished c) f hb small hn
                (rw (more, literals, literal) at e)
          | inr indexed ↦
              parse_indexed_bounds b offset (unfinished c) f hb small hn
                (rw (more, literals, indexed) at e)
        ]
      ]
    where
      updated :
          (r : Ret) (c1 : Context) (con : ℕ)
          → parse_context_update b offset (unfinished c) ≡ done (r, c1, con)
          → (r ≡ ok) × (k ≡ con)
          → (1 ≤ k) × (offset + k ≤ length b.bytes)
      updated r c1 con e2 (fine, size) =
          let is : parse_context_update b offset (unfinished c) ≡ done (ok, c1, con) =
            e2 ∙ ap (λ x. done (x, c1, con)) fine in
          let (h1, inside) = parse_context_update_bounds b offset (unfinished c) hb small hn is in
          omega arith

  -- While the block has octets left, a call for a field that succeeds has consumed one of them at
  -- least, and none behind the block, whatever the table for Huffman codes.
  pub field_bounds :
      (b : Buffer) (offset : ℕ) (c : Context) (f : Field) {c' : Context} {f' : Field} {k : ℕ}
      → All IsByte b.bytes
      → length b.bytes < 2 ^ 31
      → offset < length b.bytes
      → field decode_table shl_int b offset c f ≡ done (ok, c', f', k)
      → (1 ≤ k) × (offset + k ≤ length b.bytes)
  unfolding field
  field_bounds b offset c f hb small hn e =
      let (octet, _, f1) = bind-done (peek b offset) _ e in
      field_at_bounds b offset octet c (HeaderField.clean f).1 hb small hn f1
