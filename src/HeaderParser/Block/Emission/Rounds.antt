-- ===== src/HeaderParser/Block/Emission/Rounds.antt =====
-- One round at the end of a block: it emits a field, or it is the last one.
use libhpack.Common.{ℕ, suc, ◌+◌, ◌-◌, ◌%◌, ◌^◌, ◌<◌, ◌≡◌, ◌∙◌, refl, sym, ap, arith, some, none}
use libhpack.Common.{List, [], ◌∷◌, ◌++◌, length, true, false, get_elem?, Option}
use libhpack.Common.{◌==◌, get_elem?-append}
use mathlib.Core.Path.{ap₂}
use mathlib.Core.List.{append-nil, append_assoc}
use libhpack.Common.Ret.{Ret, ok, eof}
use libhpack.Common.Run.{done, checked}
use libhpack.Buffer
use libhpack.Buffer.{Buffer}
use libhpack.BitmapSet
use libhpack.BitmapSet.{BitmapSet, Iterator}
use libhpack.BitmapSet.Algebra.{exists-clone}
use libhpack.BitmapSet.Search.{IsLeast}
use libhpack.BitmapSet.Next.{position}
use libhpack.Huffman.{Entry}
use libhpack.HeaderField
use libhpack.HeaderField.{Field}
use libhpack.HeaderStore
use libhpack.HeaderTable.Holds.{IsField}
use libhpack.HeaderTable.Query.Find.{delivered}
use libhpack.HeaderParser.{Context}
use libhpack.HeaderParser.Strings.{peek}
use libhpack.HeaderParser.Agreement.{IsSound}
use libhpack.HeaderParser.Representations.{final_reference_set_process}
use libhpack.HeaderParser.Representations.Final.{emitted, restarted, restarted-IsSound}
use libhpack.HeaderParser.Block.Emission.Pending.{fields_at, fields_at-none, fields_at-least}
use libhpack.HeaderParser.Block.{field_at, field, all_loop}
use libhpack.HeaderParser.Block.Stored.{strings_of, strings_of-emit, bytes-add, all_loop-field}

-- A field of the table that is delivered into an empty one.
delivered_full :
    (f out : Field)
    → IsField f
    → (HeaderField.is_empty (delivered f false (HeaderField.clean out).1) ≡ false)
      × (strings_of (delivered f false (HeaderField.clean out).1 ∷ []) ≡ strings_of (f ∷ []))
unfolding HeaderField.clean Buffer.clean
delivered_full f out hf =
    let n = bytes-add (HeaderField.clean out).1.name f.name.bytes in
    let v = bytes-add (HeaderField.clean out).1.value f.value.bytes in
    (
      unfold HeaderField.is_empty Buffer.is_empty in rw (n, v) (ground (arith, hf.not_empty)),
      rw (n, v) refl,
    )

-- What is found by the iterator of a context.
abbrev pub IsFirst : Context → Option ℕ → Type 0
IsFirst c found =
    IsLeast (128 - position c.iter_not_emitted) c.ref_not_emitted (position c.iter_not_emitted)
      found

module _ (decode_table : ℕ → ℕ → Entry) (shl_int : ℕ → ℕ) where
  -- A call for a field behind the last octet.
  field_final :
      (b : Buffer) (c : Context) (f : Field) {r : Ret} {c' : Context} {f' : Field}
      → final_reference_set_process shl_int c (HeaderField.clean f).1 ≡ done (r, c', f')
      → field decode_table shl_int b (length b.bytes) c f ≡ done (r, c', f', 0)
  unfolding field field_at
  field_final b c f e =
      let octet : peek b (length b.bytes) ≡ done 0 = ap checked (get_elem?-append b.bytes 0 []) in
      let here : (length b.bytes == length b.bytes) ≡ true = ground arith in rw (octet, here, e)

  -- The round that finds nothing pending is the last one.
  loop_over :
      (rounds : ℕ) (b : Buffer) (c : Context) (f : Field) (stored : List Field) (consumed : ℕ)
      (it : Iterator)
      → c.finished ≡ false
      → BitmapSet.next shl_int c.ref_not_emitted c.iter_not_emitted ≡ (it, none)
      → all_loop decode_table shl_int (suc rounds) b (length b.bytes) c f (some stored) consumed
        ≡ done (ok, restarted c it, some stored, consumed)
  unfolding all_loop
  loop_over rounds b c f stored consumed it going none_left =
      let next1 = ap (λ x. x.1) none_left in
      let last =
        field_final b c f {r = eof} {c' = restarted c it} {f' = (HeaderField.clean f).1}
          (unfold final_reference_set_process in simp (going, next1)) in
      rw last refl

  -- What the rounds at the end of a block come to, from a context and a store.
  pub record IsEmission (b : Buffer) (c : Context) (f : Field) (stored fs : List Field)
      (rounds consumed : ℕ) (c' : Context) (stored' : List Field) : Type 0 where
    pub runs :
        all_loop decode_table shl_int rounds b (length b.bytes) c f (some stored) consumed
        ≡ done (ok, c', some stored', consumed)
    pub emits :
        strings_of stored'
        ≡ strings_of stored
          ++ strings_of (
              fields_at
                (128 - position c.iter_not_emitted)
                c.ref_not_emitted
                c.table.offsets.head
                fs
                (position c.iter_not_emitted))
    pub sound : IsSound c' fs
    pub table_kept : c'.table ≡ c.table
    pub reference_kept : c'.reference_set ≡ c.reference_set
    pub pending_again :
        (j : ℕ) → BitmapSet.exists c'.ref_not_emitted j ≡ BitmapSet.exists c.reference_set j
    pub finished : c'.finished ≡ true

  pub IsEmission-last :
      (rounds : ℕ) (b : Buffer) (c : Context) (f : Field) (stored fs : List Field) (consumed : ℕ)
      (it : Iterator)
      → IsSound c fs
      → c.finished ≡ false
      → BitmapSet.next shl_int c.ref_not_emitted c.iter_not_emitted ≡ (it, none)
      → IsFirst c none
      → IsEmission b c f stored fs (suc rounds) consumed (restarted c it) stored
  IsEmission-last rounds b c f stored fs consumed it sound going e least = record {
    runs = loop_over rounds b c f stored consumed it going e;
    emits =
        rw
          (fields_at-none (128 - position c.iter_not_emitted) c.ref_not_emitted c.table.offsets.head
            fs (position c.iter_not_emitted) least)
          (sym (append-nil (strings_of stored)));
    sound = restarted-IsSound c it fs sound;
    table_kept = refl;
    reference_kept = refl;
    pending_again = λ j. exists-clone c.ref_not_emitted c.reference_set j;
    finished = refl;
  }

  module _ (rounds : ℕ) (b : Buffer) (c : Context) (f g : Field) (stored fs : List Field)
      (consumed : ℕ) (it : Iterator) (i : ℕ) (hb : length b.bytes < 2 ^ 31) (hc : consumed < 2 ^ 32)
      (hg : IsField g) (at : get_elem? fs ((i + 128 - c.table.offsets.head) % 128) ≡ some g)
      (first : IsFirst c (some i)) (behind : position it ≡ i + 1)
      (run : final_reference_set_process shl_int c (HeaderField.clean f).1
        ≡ done (ok, emitted c it i, delivered g false (HeaderField.clean f).1)) where
    abbrev out : Field
    out = delivered g false (HeaderField.clean f).1

    abbrev stored1 : List Field
    stored1 = (HeaderStore.emit stored out).1

    loop_on :
        all_loop decode_table shl_int (suc rounds) b (length b.bytes) c f (some stored) consumed
        ≡ all_loop decode_table shl_int rounds b
            (length b.bytes)
            (emitted c it i)
            out
            (some stored1)
            consumed
    loop_on =
        let e1 : length b.bytes + 0 ≡ length b.bytes = omega arith in
        let e2 : consumed + 0 ≡ consumed = omega arith in
        all_loop-field decode_table shl_int rounds b (length b.bytes) c f stored consumed
          {c' = emitted c it i} {f' = out} {k = 0} (omega arith) (omega arith)
          (field_final b c f {r = ok} {c' = emitted c it i} {f' = out} run)
          (delivered_full g f hg).0
        ∙ ap₂
            (λ n k. all_loop decode_table shl_int rounds b n (emitted c it i) out (some stored1) k)
            e1 e2

    abbrev rest : List Field
    rest =
        fields_at (128 - position it) (BitmapSet.remove c.ref_not_emitted i).1 c.table.offsets.head
          fs (position it)

    first_field :
        fields_at
          (128 - position c.iter_not_emitted)
          c.ref_not_emitted
          c.table.offsets.head
          fs
          (position c.iter_not_emitted)
        ≡ g ∷ rest
    first_field =
        let (there, low, high, least) = first in
        fields_at-least c.ref_not_emitted c.table.offsets.head fs (position c.iter_not_emitted) i g
          low (omega arith) there least at
        ∙ rw behind refl

    pub IsEmission-step :
        {c' : Context} {stored' : List Field}
        → IsEmission b (emitted c it i) out stored1 fs rounds consumed c' stored'
        → IsEmission b c f stored fs (suc rounds) consumed c' stored'
    IsEmission-step later = record {
      runs = loop_on ∙ later.runs;
      emits =
          later.emits
          ∙ ap (λ t. t ++ strings_of rest)
              (strings_of-emit stored out
                ∙ ap (λ t. strings_of stored ++ t) (delivered_full g f hg).1)
          ∙ append_assoc (strings_of stored) (strings_of (g ∷ [])) (strings_of rest)
          ∙ ap (λ gs. strings_of stored ++ strings_of gs) (sym first_field);
      sound = later.sound;
      table_kept = later.table_kept;
      reference_kept = later.reference_kept;
      pending_again = later.pending_again;
      finished = later.finished;
    }
