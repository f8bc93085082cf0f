-- ===== src/HeaderParser/Block/Ends.antt =====
-- `hpack_header_parser_all` ends, if its calls do.
use libhpack.Common.{
  ℕ, zero, suc, ◌+◌, ◌-◌, ◌%◌, ◌^◌, ◌≤◌, ◌<◌, ◌≡◌, ◌≢◌, ◌⊎◌, refl, sym, ap, ◌∙◌, arith, true, false,
  List, [], length, All, none, some, ◌==◌, if◌then◌else◌, Option,
}
use libhpack.Common.{Bool-cases, Option-cases, inl, inr, get_elem?-append}
use libhpack.Common.Ret.{Ret, ok, is_ok}
use libhpack.Common.Run.{Run, done, fault, stuck, checked, IsDone}
use libhpack.Buffer.{Buffer}
use libhpack.BitmapSet
use libhpack.BitmapSet.{Iterator}
use libhpack.BitmapSet.Advance.{ahead, next_moves}
use libhpack.Huffman.{Entry}
use libhpack.HeaderField
use libhpack.HeaderField.{Field}
use libhpack.HeaderTable.OffsetsRing.{index_switch}
use libhpack.HeaderStore
use libhpack.HeaderTable.Query
use libhpack.Integer.Decode.{IsByte}
use libhpack.HeaderParser.{Context}
use libhpack.HeaderParser.Strings.{peek}
use libhpack.HeaderParser.Bounds.{bind-done, ok_of}
use libhpack.HeaderParser.Representations.{final_reference_set_process}
use libhpack.HeaderParser.Block.{field_at, field, all_loop, all}
use libhpack.HeaderParser.Block.Progress.{field_bounds}

Run-cases : {A : Type 0} (m : Run A) → IsDone m ⊎ ((m ≡ fault) ⊎ (m ≡ stuck))
Run-cases (done a) = inl (a, refl)
Run-cases fault = inr (inl refl)
Run-cases stuck = inr (inr refl)

iter_of : Iterator → Run (Ret × Context × Field) → Iterator
iter_of it (done (r, c, f)) = c.iter_not_emitted
iter_of it _ = it

module _ (decode_table : ℕ → ℕ → Entry) (shl_int : ℕ → ℕ) where
  -- An emission moves the iterator on.
  final_moves :
      (c : Context) (f : Field) {c' : Context} {f' : Field}
      → final_reference_set_process shl_int c f ≡ done (ok, c', f')
      → ahead c'.iter_not_emitted < ahead c.iter_not_emitted
  unfolding final_reference_set_process iter_of
  final_moves c f {c'} {f'} e = elim (Bool-cases c.finished) [
    | inl over ↦ absurd (cc (rw over at e))
    | inr going ↦
        elim (Option-cases (BitmapSet.next shl_int c.ref_not_emitted c.iter_not_emitted).1) [
          | inl none_found ↦ absurd (cc (rw (going, none_found) at e))
          | inr (i, found) ↦
              let ((r, g, is_static), e1, e2) =
                bind-done (Query.get c.table (index_switch c.table.offsets i) false f false) _
                  (rw (going, found) at e) in
              let same = ap (iter_of c.iter_not_emitted) e2 in
              omega (
                arith,
                ap ahead same,
                next_moves shl_int c.ref_not_emitted c.iter_not_emitted {f = i} found,
              )
        ]
  ]

  field_at_end :
      (b : Buffer) (c : Context) (f : Field) {c' : Context} {f' : Field} {k : ℕ}
      → field decode_table shl_int b (length b.bytes) c f ≡ done (ok, c', f', k)
      → (k ≡ 0) × (ahead c'.iter_not_emitted < ahead c.iter_not_emitted)
  unfolding field field_at
  field_at_end b c f {c'} {f'} {k} e =
      let octet : peek b (length b.bytes) ≡ done 0 = ap checked (get_elem?-append b.bytes 0 []) in
      let here : (length b.bytes == length b.bytes) ≡ true = ground arith in
      let g = (HeaderField.clean f).1 in
      let ((r, c1, f1), e1, e2) =
        bind-done (final_reference_set_process shl_int c g) _ (rw (octet, here) at e) in
      emitted r c1 f1 e1 e2
    where
      emitted :
          (r : Ret) (c1 : Context) (f1 : Field)
          → final_reference_set_process shl_int c (HeaderField.clean f).1 ≡ done (r, c1, f1)
          → (let m : Run (Ret × Context × Field × ℕ) = done (r, c1, f1, 0) in m)
            ≡ done (ok, c', f', k)
          → (k ≡ 0) × (ahead c'.iter_not_emitted < ahead c.iter_not_emitted)
      emitted r c1 f1 e1 e2 =
          let fine : r ≡ ok = cc in
          let same : c1 ≡ c' = cc in
          let none_used : k ≡ 0 = cc in
          (
            none_used,
            final_moves c (HeaderField.clean f).1
                (e1 ∙ ap (λ x. done (x, c1, f1)) fine ∙ ap (λ x. done (ok, x, f1)) same),
          )

  module _ (rounds : ℕ) (b : Buffer) (offset : ℕ) (c : Context) (f : Field)
      (store : Option (List Field)) (consumed : ℕ) {r : Ret} {c' : Context} {f' : Field} {k : ℕ}
      (e : field decode_table shl_int b offset c f ≡ done (r, c', f', k)) where
    -- A status that is not ok ends the loop.
    all_loop_over :
        is_ok r ≡ false
        → all_loop decode_table shl_int (suc rounds) b offset c f store consumed ≢ stuck
    unfolding all_loop
    all_loop_over bad = rw (e, bad) (λ s. cc)

    -- The status ok is that of another round.
    all_loop_again :
        is_ok r ≡ true
        → offset + k < 2 ^ 32
        → (store' : Option (List Field)) × (consumed' : ℕ) × (all_loop decode_table shl_int
              (suc rounds)
              b
              offset
              c
              f
              store
              consumed
            ≡ all_loop decode_table shl_int rounds b (offset + k) c' f' store' consumed')
    unfolding all_loop
    all_loop_again fine h =
        let n : (offset + k) % 2 ^ 32 ≡ offset + k = omega arith in
        (stored, (consumed + k) % 2 ^ 32, rw (e, fine, n) refl)
      where
        stored : Option (List Field)
        stored = elim store [
          | none ↦ none
          | some fs ↦ if HeaderField.is_empty f' then some fs else some (HeaderStore.emit fs f').1
        ]

  all_loop_fault :
      (rounds : ℕ) (b : Buffer) (offset : ℕ) (c : Context) (f : Field) (store : Option (List Field))
      (consumed : ℕ)
      → field decode_table shl_int b offset c f ≡ fault
      → all_loop decode_table shl_int (suc rounds) b offset c f store consumed ≢ stuck
  unfolding all_loop
  all_loop_fault rounds b offset c f store consumed e = rw e (λ s. cc)

  -- The calls for fields that a block leads to: each from the context and the field that the one
  -- before it has left.
  pub data Comes (b : Buffer)
      : (offset : ℕ) → Context → Field → (offset' : ℕ) → Context → Field → Type 0 where
    here : {offset : ℕ} {c : Context} {f : Field} → Comes b offset c f offset c f
    next_field :
        {offset : ℕ} {c : Context} {f : Field} {c' : Context} {f' : Field} {k offset' : ℕ}
        {c'' : Context} {f'' : Field}
        → field decode_table shl_int b offset c f ≡ done (ok, c', f', k)
        → Comes b (offset + k) c' f' offset' c'' f''
        → Comes b offset c f offset' c'' f''

  -- One of these calls does not end.
  abbrev pub IsEndless : Buffer → ℕ → Context → Field → Type 0
  IsEndless b offset c f =
      (offset' : ℕ) × (c' : Context) × (f' : Field) × Comes b offset c f offset' c' f'
      × (field decode_table shl_int b offset' c' f' ≡ stuck)

  module _ (b : Buffer) (hb : All IsByte b.bytes) (small : length b.bytes < 2 ^ 31) where
    -- One round: it is the last one, or `next` shows that those behind it end.
    round_ends :
        (rounds offset : ℕ) (c : Context) (f : Field) (store : Option (List Field)) (consumed : ℕ)
        → ((c' : Context) (f' : Field) (k : ℕ) (store' : Option (List Field)) (consumed' : ℕ)
            → field decode_table shl_int b offset c f ≡ done (ok, c', f', k)
            → (offset + k < 2 ^ 32)
              × ((all_loop decode_table shl_int rounds b (offset + k) c' f' store' consumed'
                    ≢ stuck)
                  ⊎ IsEndless b (offset + k) c' f'))
        → (all_loop decode_table shl_int (suc rounds) b offset c f store consumed ≢ stuck)
          ⊎ IsEndless b offset c f
    round_ends rounds offset c f store consumed next =
        elim (Run-cases (field decode_table shl_int b offset c f)) [
          | inr (inr endless) ↦ inr (offset, c, f, here, endless)
          | inr (inl faulty) ↦ inl (all_loop_fault rounds b offset c f store consumed faulty)
          | inl ((r, c', f', k), e) ↦ elim (Bool-cases (is_ok r)) [
            | inr bad ↦ inl (all_loop_over rounds b offset c f store consumed e bad)
            | inl fine ↦
                let is : field decode_table shl_int b offset c f ≡ done (ok, c', f', k) =
                  e ∙ ap (λ x. done (x, c', f', k)) (ok_of r fine) in
                let (store', consumed', same) =
                  all_loop_again rounds b offset c f store consumed e fine
                    (next c' f' k none 0 is).0 in
                again c' f' k store' consumed' is same (next c' f' k store' consumed' is).1
          ]
        ]
      where
        again :
            (c' : Context) (f' : Field) (k : ℕ) (store' : Option (List Field)) (consumed' : ℕ)
            → field decode_table shl_int b offset c f ≡ done (ok, c', f', k)
            → all_loop decode_table shl_int (suc rounds) b offset c f store consumed
              ≡ all_loop decode_table shl_int rounds b (offset + k) c' f' store' consumed'
            → ((all_loop decode_table shl_int rounds b (offset + k) c' f' store' consumed' ≢ stuck)
                ⊎ IsEndless b (offset + k) c' f')
            → (all_loop decode_table shl_int (suc rounds) b offset c f store consumed ≢ stuck)
              ⊎ IsEndless b offset c f
        again c' f' k store' consumed' is same (inl ends) = inl (λ s. ends (sym same ∙ s))
        again c' f' k store' consumed' is same (inr (o, d, g, comes, endless)) =
            inr (o, d, g, next_field is comes, endless)

    -- At the end of the block, every round emits a field that the iterator has before it.
    end_ends :
        (rounds : ℕ) (c : Context) (f : Field) (store : Option (List Field)) (consumed : ℕ)
        → ahead c.iter_not_emitted < rounds
        → (all_loop decode_table shl_int rounds b (length b.bytes) c f store consumed ≢ stuck)
          ⊎ IsEndless b (length b.bytes) c f
    end_ends zero c f store consumed h = absurd (omega arith)
    end_ends (suc rounds) c f store consumed h =
        round_ends rounds (length b.bytes) c f store consumed (λ c' f' k store' consumed' e.
          let (none_used, moved) = field_at_end b c f e in
          let here : length b.bytes ≡ length b.bytes + k = omega arith in
          (omega arith, rw (sym here) (end_ends rounds c' f' store' consumed' (omega arith))))

    loop_ends :
        (rounds offset : ℕ) (c : Context) (f : Field) (store : Option (List Field)) (consumed : ℕ)
        → offset ≤ length b.bytes
        → length b.bytes - offset + 129 ≤ rounds
        → (all_loop decode_table shl_int rounds b offset c f store consumed ≢ stuck)
          ⊎ IsEndless b offset c f
    loop_ends zero offset c f store consumed hn h = absurd (omega arith)
    loop_ends (suc rounds) offset c f store consumed hn h =
        elim (Bool-cases (offset == length b.bytes)) [
          | inl last ↦
              let here : offset ≡ length b.bytes = ground arith in
              rw here (end_ends (suc rounds) c f store consumed (omega arith))
          | inr more ↦ round_ends rounds offset c f store consumed (λ c' f' k store' consumed' e.
              let (h1, inside) =
                field_bounds decode_table shl_int b offset c f hb small (ground arith) e in
              (
                omega arith,
                loop_ends rounds (offset + k) c' f' store' consumed' inside (omega arith),
              ))
        ]

    -- For a block of octets shorter than 2 ^ 31 and an offset not behind its end, the loop of
    -- `hpack_header_parser_all` ends within the rounds that the model gives it, whatever the context and the store,
    -- unless a call for a field that it comes to does not end.
    pub all_ends :
        (offset : ℕ) (c : Context) (store : Option (List Field)) (consumed : ℕ)
        → offset ≤ length b.bytes
        → (all decode_table shl_int b offset c store consumed ≢ stuck)
          ⊎ IsEndless b offset c HeaderField.init.1
    unfolding all HeaderField.init
    all_ends offset c store consumed hn =
        loop_ends (length b.bytes - offset + 130) offset c HeaderField.init.1 store consumed hn
          (omega arith)
