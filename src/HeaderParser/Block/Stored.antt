-- ===== src/HeaderParser/Block/Stored.antt =====
-- The rounds of `hpack_header_parser_all`.
use libhpack.Common.{
  ℕ, suc, ◌+◌, ◌%◌, ◌^◌, ◌<◌, ◌≡◌, refl, sym, ap, ◌∙◌, arith, true, false, List, [], ◌∷◌, ◌++◌,
  length, none, some, ◌==◌,
}
use libhpack.Common.{Bool-cases, inl, inr}
use libhpack.Common.{get_elem?-append}
use libhpack.Common.Ret.{ok, eof}
use mathlib.Core.List.{append-nil}
use libhpack.Common.Run.{done, checked}
use libhpack.Buffer
use libhpack.Buffer.{Buffer}
use libhpack.BitmapSet
use libhpack.BitmapSet.{BitmapSet, Iterator}
use libhpack.Huffman.{Entry}
use libhpack.HeaderField
use libhpack.HeaderField.{Field}
use libhpack.HeaderStore
use libhpack.HeaderParser.{Context}
use libhpack.HeaderParser.Strings.{peek}
use libhpack.HeaderParser.Representations.{final_reference_set_process}
use libhpack.HeaderParser.Block.{field_at, field, all_loop}

-- The name and the value of every field.
abbrev pub strings_of : List Field → List (List ℕ × List ℕ)
strings_of [] = []
strings_of (f ∷ fs) = (f.name.bytes, f.value.bytes) ∷ strings_of fs

pub strings_of-append :
    (fs gs : List Field) → strings_of (fs ++ gs) ≡ strings_of fs ++ strings_of gs
strings_of-append [] gs = refl
strings_of-append (f ∷ fs) gs =
    ap (λ t. (f.name.bytes, f.value.bytes) ∷ t) (strings_of-append fs gs)

pub bytes-add : (b : Buffer) (xs : List ℕ) → (Buffer.add b xs).bytes ≡ b.bytes ++ xs
unfolding Buffer.add
bytes-add b [] = sym (append-nil b.bytes)
bytes-add b (x ∷ xs) = refl

-- The store gets the strings of the field behind those it had.
pub strings_of-emit :
    (fs : List Field) (f : Field)
    → strings_of (HeaderStore.emit fs f).1 ≡ strings_of fs ++ strings_of (f ∷ [])
unfolding HeaderStore.emit HeaderStore.add HeaderField.copy HeaderField.init Buffer.add_buffer
    Buffer.init
strings_of-emit fs f =
    strings_of-append fs _
    ∙ ap (λ t. strings_of fs ++ ((t, (Buffer.add Buffer.init f.value.bytes).bytes) ∷ []))
        (bytes-add Buffer.init f.name.bytes)
    ∙ ap (λ t. strings_of fs ++ ((f.name.bytes, t) ∷ [])) (bytes-add Buffer.init f.value.bytes)

module _ (decode_table : ℕ → ℕ → Entry) (shl_int : ℕ → ℕ) where
  -- A round with a field that is not empty.
  pub all_loop-field :
      (rounds : ℕ) (b : Buffer) (offset : ℕ) (c : Context) (f : Field) (fs : List Field)
      (consumed : ℕ) {c' : Context} {f' : Field} {k : ℕ}
      → offset + k < 2 ^ 32
      → consumed + k < 2 ^ 32
      → field decode_table shl_int b offset c f ≡ done (ok, c', f', k)
      → HeaderField.is_empty f' ≡ false
      → all_loop decode_table shl_int (suc rounds) b offset c f (some fs) consumed
        ≡ all_loop decode_table shl_int rounds b
            (offset + k)
            c'
            f'
            (some (HeaderStore.emit fs f').1)
            (consumed + k)
  unfolding all_loop
  all_loop-field rounds b offset c f fs consumed {c'} {f'} {k} h1 h2 e full =
      let a1 : (offset + k) % 2 ^ 32 ≡ offset + k = omega arith in
      let a2 : (consumed + k) % 2 ^ 32 ≡ consumed + k = omega arith in rw (e, full, a1, a2) refl

  -- The field at the end of a block, where nothing is left to be emitted.
  field_end :
      (b : Buffer) (c : Context) (f : Field) (it : Iterator)
      → BitmapSet.next shl_int c.ref_not_emitted c.iter_not_emitted ≡ (it, none)
      → (c' : Context) × (field decode_table shl_int b (length b.bytes) c f
          ≡ done (eof, c', (HeaderField.clean f).1, 0))
        × (c'.table ≡ c.table)
        × (c'.reference_set ≡ c.reference_set)
  unfolding field field_at final_reference_set_process
  field_end b c f it none_left =
      let octet : peek b (length b.bytes) ≡ done 0 = ap checked (get_elem?-append b.bytes 0 []) in
      let here : (length b.bytes == length b.bytes) ≡ true = ground arith in
      elim (Bool-cases c.finished) [
        | inl over ↦ (c, rw (octet, here, over) refl, refl, refl)
        | inr going ↦ (over_context c it, rw (octet, here, going, none_left) refl, refl, refl)
      ]
    where
      over_context : Context → Iterator → Context
      over_context c it = record {
        table = c.table;
        reference_set = c.reference_set;
        ref_not_emitted = BitmapSet.clone c.ref_not_emitted c.reference_set;
        iter_not_emitted = BitmapSet.iter_reset it;
        finished = true;
      }

  -- The last round.
  pub all_loop_end :
      (rounds : ℕ) (b : Buffer) (c : Context) (f : Field) (fs : List Field) (consumed : ℕ)
      (it : Iterator)
      → BitmapSet.next shl_int c.ref_not_emitted c.iter_not_emitted ≡ (it, none)
      → (c' : Context) × (all_loop decode_table shl_int
            (suc rounds)
            b
            (length b.bytes)
            c
            f
            (some fs)
            consumed
          ≡ done (ok, c', some fs, consumed))
        × (c'.table ≡ c.table)
        × (c'.reference_set ≡ c.reference_set)
  unfolding all_loop
  all_loop_end rounds b c f fs consumed it none_left =
      let (c', e, t, r) = field_end b c f it none_left in (c', rw e refl, t, r)
