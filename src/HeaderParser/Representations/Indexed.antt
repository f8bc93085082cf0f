-- ===== src/HeaderParser/Representations/Indexed.antt =====
-- `parse_indexed`: what it consumes, and what it does to the reference set.
use libhpack.Common.{
  ℕ, ◌∙◌, ◌+◌, ◌-◌, ◌%◌, ◌^◌, ◌≤◌, ◌<◌, ◌≡◌, refl, arith, length, All, Bool, true, false, not, ltb,
  if◌then◌else◌, ◌==◌, ◌&&◌,
}
use libhpack.Common.{Bool-cases, inl, inr, bit_and_low}
use libhpack.HeaderTable.OffsetsRing.{index_switch}
use libhpack.Common.Ret.{Ret, ok}
use libhpack.Common.Run.{Run, done}
use libhpack.Buffer.{Buffer}
use libhpack.BitmapSet
use libhpack.BitmapSet.{BitmapSet}
use libhpack.BitmapSet.Member.{exists-remove}
use libhpack.HeaderField.{Field, rep_indexed}
use libhpack.Integer.Decode.{IsByte}
use libhpack.HeaderTable.StaticTable.{static_entries}
use libhpack.HeaderTable.Table.{is_ok}
use libhpack.HeaderTable.Query
use libhpack.HeaderParser.{Context, add_field_process_evictions}
use libhpack.HeaderParser.Strings.{decode_at}
use libhpack.HeaderParser.Bounds.{decode_at_bounds, bind-done, ok_of}
use libhpack.HeaderParser.Representations.{
  with_rep, position_of, dropped, referenced, looked_up, indexed_at, parse_indexed,
}

looked_up_con :
    (c : Context) (num con : ℕ) (r : Ret) (f : Field) (is_static : Bool) {c' : Context} {f' : Field}
    {k : ℕ}
    → looked_up c num con r f is_static ≡ done (ok, c', f', k)
    → k ≡ con
unfolding looked_up
looked_up_con c num con r f is_static {c'} {f'} {k} e = elim (Bool-cases (is_ok r)) [
  | inr bad ↦ absurd (not_ok r bad (cc (rw bad at e)))
  | inl fine ↦ elim (Bool-cases is_static) [
    | inr dynamic ↦ cc (rw (fine, dynamic) at e)
    | inl static ↦
        let ((r1, c1, added), e1, f1) =
          bind-done (add_field_process_evictions c f) _ (rw (fine, static) at e) in
        inserted r1 c1 f1
  ]
]
  where
    not_ok : (r : Ret) → is_ok r ≡ false → r ≡ ok → ⊥
    not_ok r bad e = cc

    inserted :
        (r1 : Ret) (c1 : Context)
        → if◌then◌else◌ {A = Run (Ret × Context × Field × ℕ)}
            (is_ok r1)
            (done (ok, referenced c1 1, f, con))
            (done (r1, c1, f, 0))
          ≡ done (ok, c', f', k)
        → k ≡ con
    inserted r1 c1 e = elim (Bool-cases (is_ok r1)) [
      | inl fine ↦ cc (rw fine at e)
      | inr bad ↦ absurd (not_ok r1 bad (cc (rw bad at e)))
    ]

indexed_at_con :
    (c : Context) (f : Field) (r : Ret) (num con : ℕ) {c' : Context} {f' : Field} {k : ℕ}
    → indexed_at c f r num con ≡ done (ok, c', f', k)
    → (r ≡ ok) × (k ≡ con)
unfolding indexed_at
indexed_at_con c f r num con e = elim (Bool-cases (is_ok r)) [
  | inr bad ↦ absurd (cc (rw bad at e))
  | inl fine ↦ elim (Bool-cases (ltb (static_entries + c.table.num_headers) num)) [
    | inl unknown ↦ absurd (cc (rw (fine, unknown) at e))
    | inr known ↦ elim (Bool-cases (BitmapSet.exists c.reference_set (position_of c num))) [
      | inl there ↦ (ok_of r fine, cc (rw (fine, known, there) at e))
      | inr new ↦
          let ((r', g, is_static), e1, f1) =
            bind-done (Query.get c.table (num % 2 ^ 16) false (with_rep f rep_indexed) false) _
              (rw (fine, known, new) at e) in
          (ok_of r fine, looked_up_con c num con r' g is_static f1)
    ]
  ]
]

-- An index that was parsed has consumed one octet at least, and none behind the block.
pub parse_indexed_bounds :
    (b : Buffer) (offset : ℕ) (c : Context) (f : Field) {c' : Context} {f' : Field} {k : ℕ}
    → All IsByte b.bytes
    → length b.bytes < 2 ^ 31
    → offset < length b.bytes
    → parse_indexed b offset c f ≡ done (ok, c', f', k)
    → (1 ≤ k) × (offset + k ≤ length b.bytes)
unfolding parse_indexed
parse_indexed_bounds b offset c f {c'} {f'} {k} hb small hn e =
    let ((r, num, con), e1, f1) = bind-done (decode_at b 7 offset) _ e in
    decoded r num con e1 (indexed_at_con c f r num con f1)
  where
    decoded :
        (r : Ret) (num con : ℕ)
        → decode_at b 7 offset ≡ done (r, num, con)
        → (r ≡ ok) × (k ≡ con)
        → (1 ≤ k) × (offset + k ≤ length b.bytes)
    decoded r num con e1 (fine, same) =
        let at_ok : decode_at b 7 offset ≡ done (ok, num, con) = e1 ∙ rw fine in
        let (_, h1, _, _, inside) =
          decode_at_bounds b 7 offset (omega arith) hb small (omega arith) at_ok in
        (omega arith, omega (arith, inside hn))

-- An index of an entry in the reference set takes its position out of that set and out of those to
-- be emitted: no other position changes, nor does the table, and no field is emitted.
pub parse_indexed-dropped :
    (b : Buffer) (offset : ℕ) (c : Context) (f : Field) (num con i : ℕ)
    → decode_at b 7 offset ≡ done (ok, num, con)
    → num ≤ c.table.num_headers + static_entries
    → BitmapSet.exists c.reference_set (position_of c num) ≡ true
    → (c' : Context) × (parse_indexed b offset c f ≡ done (ok, c', f, con))
      × (BitmapSet.exists c'.reference_set i
          ≡ (BitmapSet.exists c.reference_set i && not (position_of c num == i)))
      × (BitmapSet.exists c'.ref_not_emitted i
          ≡ (BitmapSet.exists c.ref_not_emitted i && not (position_of c num == i)))
      × (c'.table ≡ c.table)
parse_indexed-dropped b offset c f num con i e known there =
    let low : ltb (static_entries + c.table.num_headers) num ≡ false = ground arith in
    let below : position_of c num < 128 =
      unfold index_switch in
      omega (arith, bit_and_low 7 (c.table.offsets.tail + 2 ^ 16 + 128 - num % 2 ^ 16)) in
    let (_, m1) = exists-remove c.reference_set (position_of c num) i in
    let (_, m2) = exists-remove c.ref_not_emitted (position_of c num) i in
    (
      dropped c num,
      unfold parse_indexed indexed_at in rw (e, low, there),
      m1 ∙ ground arith,
      m2 ∙ ground arith,
      refl,
    )
