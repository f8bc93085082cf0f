-- ===== src/HeaderTable/Update/Store.antt =====
-- Storing a field in a table that has room for it.
use libhpack.Common.{ℕ, ◌+◌, ◌-◌, ◌%◌, ◌^◌, ◌≤◌, ◌<◌, ◌≡◌, ◌≢◌, refl, sym, arith}
use libhpack.Common.{List, [], ◌∷◌, ◌++◌, length, take_all, length-append, false}
use libhpack.Common.{some, inl, inr, Bool-cases, ltb, if◌then◌else◌, bit_and_low, ◌==◌}
use libhpack.Common.Ret.{ok}
use libhpack.Common.Run.{done}
use libhpack.Buffer
use libhpack.Buffer.{Buffer}
use libhpack.HeaderField.{Field, get_size}
use libhpack.HeaderTable.DataRing
use libhpack.HeaderTable.DataRing.{DataRing, data_size, free}
use libhpack.HeaderTable.DataRing.Write.{IsWritten, IsWritten-append, add_ok, free_lem}
use libhpack.HeaderTable.OffsetsRing
use libhpack.HeaderTable.OffsetsRing.{OffsetsRing}
use libhpack.HeaderTable.Info.{to_bytes, length-to_bytes}
use libhpack.HeaderTable.Table.{Table}
use libhpack.HeaderTable.Update.{store_field, data_of}
use libhpack.HeaderTable.Holds.{
  Holds, IsField, Chain, Chain-snoc, image, record_of, stored_size, counted_size, totals,
  stored_total-append, counted_total-append, All-append_field, length-image,
}
use mathlib.Core.List.{append-nil}
use mathlib.Core.Path.{subst}

pub get_size-IsField : (f : Field) → IsField f → counted_size f ≤ 4096 → get_size f ≡ counted_size f
unfolding get_size Buffer.len Buffer.is_empty
get_size-IsField f hf small = ground (arith, hf.not_empty)

-- The three additions to the data write the image of the field, if the ring has room for it.
pub three_adds :
    (h : DataRing) (f : Field)
    → IsField f
    → h.tail < data_size
    → h.head < data_size
    → stored_size f ≤ free h
    → (h1 : DataRing) × (h2 : DataRing) × (h3 : DataRing) × (DataRing.add h
          (some (to_bytes (record_of f)))
        ≡ done (ok, h1))
      × (DataRing.add h1 (some f.name.bytes) ≡ done (ok, h2))
      × (DataRing.add h2 (some f.value.bytes) ≡ done (ok, h3))
      × IsWritten h (to_bytes (record_of f) ++ f.name.bytes) h2
      × IsWritten h (image f) h3
three_adds h f hf ht hh room =
    let info = to_bytes (record_of f) in
    let size = length-to_bytes (record_of f) in
    let (h1, e1, w1) = add_ok h info ht (omega (arith, size)) in
    let room1 : length f.name.bytes + length f.value.bytes ≤ free h1 =
      omega (arith, free_lem h, free_lem h1, size, w1.tail_moved, w1.head_kept) in
    let ht1 : h1.tail < data_size = omega (arith, w1.tail_moved) in
    let (h2, e2, w2) = add_ok h1 f.name.bytes ht1 (omega arith) in
    let room2 : length f.value.bytes ≤ free h2 =
      omega (arith, free_lem h1, free_lem h2, w2.tail_moved, w2.head_kept, w1.head_kept) in
    let ht2 : h2.tail < data_size = omega (arith, w2.tail_moved) in
    let (h3, e3, w3) = add_ok h2 f.value.bytes ht2 room2 in
    let small : stored_size f < data_size = omega (arith, free_lem h) in
    let w12 = IsWritten-append {h' = h1} {h'' = h2} ht (omega (arith, size)) w1 w2 in
    let w23 = IsWritten-append {h' = h2} {h'' = h3} ht1 (omega arith) w2 w3 in
    let texts = length-append f.name.bytes f.value.bytes in
    (
      h1,
      h2,
      h3,
      e1,
      e2,
      e3,
      w12,
      IsWritten-append {h' = h1} {h'' = h3} ht (omega (arith, size, texts)) w1 w23,
    )

-- The data of a table after a field has been stored, with the code that stores it.
stores :
    (h : DataRing) (f : Field)
    → IsField f
    → h.tail < data_size
    → h.head < data_size
    → stored_size f ≤ free h
    → (h1 : DataRing) × (h2 : DataRing) × (h3 : DataRing) × (DataRing.add h
          (some (to_bytes (record_of f)))
        ≡ done (ok, h1))
      × (DataRing.add h1 (data_of f.name (length f.name.bytes)) ≡ done (ok, h2))
      × ((if ltb 0 (length f.value.bytes)
            then DataRing.add h2 (data_of f.value (length f.value.bytes))
            else done (ok, h2))
          ≡ done (ok, h3))
      × IsWritten h (image f) h3
stores h f hf ht hh room =
    let (h1, h2, h3, e1, e2, e3, w2, w3) = three_adds h f hf ht hh room in
    let e2' : DataRing.add h1 (data_of f.name (length f.name.bytes)) ≡ done (ok, h2) =
      rw (hf.name_memory, take_all f.name.bytes) e2 in
    elim (Bool-cases (ltb 0 (length f.value.bytes))) [
      | inl some_value ↦
          let memory = hf.value_memory (ground arith) in
          (h1, h2, h3, e1, e2', rw (some_value, memory, take_all f.value.bytes) e3, w3)
      | inr no_value ↦ (
        h1,
        h2,
        h2,
        e1,
        e2',
        rw no_value,
        subst (λ xs. IsWritten h (to_bytes (record_of f) ++ xs) h2) (no_bytes (ground arith)) w2,
      )
    ]
  where
    is_nil : (xs : List ℕ) → length xs ≡ 0 → xs ≡ []
    is_nil [] e = refl
    is_nil (x ∷ xs) e = absurd (omega arith)

    no_bytes : length f.value.bytes ≡ 0 → f.name.bytes ≡ f.name.bytes ++ f.value.bytes
    no_bytes e = rw (is_nil f.value.bytes e) (sym (append-nil f.name.bytes))

-- The table after the three additions.
module _ (t : Table) (h3 : DataRing) (size : ℕ) where
  grown : Table
  grown = record {
    offsets = record {
      buffer = λ i. if i == t.offsets.tail then t.bytes.tail else t.offsets.buffer i;
      head = t.offsets.head;
      tail = OffsetsRing.move t.offsets.tail 1;
    };
    bytes = h3;
    num_headers = (t.num_headers + 1) % 2 ^ 16;
    used_data = (t.used_data + size) % 2 ^ 16;
    max_data = t.max_data;
  }

  store_field-grown :
      (f : Field) (h1 h2 : DataRing)
      → length f.name.bytes < 2 ^ 16
      → length f.value.bytes < 2 ^ 16
      → 1 ≤ OffsetsRing.free t.offsets
      → DataRing.add t.bytes (some (to_bytes (record_of f))) ≡ done (ok, h1)
      → DataRing.add h1 (data_of f.name (length f.name.bytes)) ≡ done (ok, h2)
      → (if ltb 0 (length f.value.bytes)
          then DataRing.add h2 (data_of f.value (length f.value.bytes))
          else done (ok, h2))
        ≡ done (ok, h3)
      → store_field t f size ≡ done (ok, grown)
  unfolding store_field grown OffsetsRing.add Buffer.len
  store_field-grown f h1 h2 hn hv ho e1 e2 e3 =
      let n : length f.name.bytes % 2 ^ 16 ≡ length f.name.bytes = omega arith in
      let v : length f.value.bytes % 2 ^ 16 ≡ length f.value.bytes = omega arith in
      let o : ltb (OffsetsRing.free t.offsets) 1 ≡ false = ground arith in rw (o, n, v, e1, e2, e3)

-- A table that holds fields and has room for one more by the count of the specification stores
-- it: the call succeeds, and the table holds that field behind the others.
pub store_field-Holds :
    (t : Table) (fs : List Field) (f : Field)
    → Holds t fs
    → IsField f
    → counted_size f + t.used_data ≤ t.max_data
    → (t' : Table) × (store_field t f (get_size f) ≡ done (ok, t'))
      × Holds t' (fs ++ (f ∷ []))
      × (t'.max_data ≡ t.max_data)
      × (t'.offsets.head ≡ t.offsets.head)
store_field-Holds t fs f hold hf room =
    let ht : t.bytes.tail < data_size = omega (arith, hold.data_tail) in
    let roomy : stored_size f ≤ free t.bytes =
      omega (arith, totals fs hold.fields, free_lem t.bytes, hf.not_empty) in
    let (h1, h2, h3, e1, e2, e3, w) = stores t.bytes f hf ht hold.data_head_in roomy in
    (
      grown t h3 (get_size f),
      store_field-grown t h3 (get_size f) f h1 h2 (omega arith) (omega arith) offsets_free e1 e2 e3,
      grown-Holds h3 w,
      unfold grown in refl,
      unfold grown in refl,
    )
  where
    size_is : get_size f ≡ counted_size f
    size_is = get_size-IsField f hf (omega arith)

    offsets_free : 1 ≤ OffsetsRing.free t.offsets
    offsets_free =
        unfold OffsetsRing.free in
        omega (arith, totals fs hold.fields, bit_and_low 7 (t.offsets.head + 127 - t.offsets.tail))

    put : ℕ → ℕ
    put i = if i == t.offsets.tail then t.bytes.tail else t.offsets.buffer i

    put_other : (i : ℕ) → i ≢ (t.offsets.head + length fs) % 128 → put i ≡ t.offsets.buffer i
    put_other i ne = ground (arith, hold.offsets_tail)

    put_here : put ((t.offsets.head + length fs) % 128) ≡ t.bytes.tail
    put_here = ground (arith, hold.offsets_tail)

    grown-Holds :
        (h3 : DataRing)
        → IsWritten t.bytes (image f) h3
        → Holds (grown t h3 (get_size f)) (fs ++ (f ∷ []))
    grown-Holds h3 w =
        unfold grown in
        record {
          chain =
              subst (λ d. Chain put h3.buffer t.offsets.head d (fs ++ (f ∷ []))) (sym w.head_kept)
                (Chain-snoc t.offsets.buffer put f t.offsets.head t.bytes.head fs
                  hold.offsets_head_in hold.data_head_in (omega (arith, totals fs hold.fields))
                  (omega (arith, hold.data_tail)) hold.data_tail
                  (omega (arith, totals fs hold.fields, hf.not_empty)) put_other put_here w
                  hold.chain);
          offsets_head_in = hold.offsets_head_in;
          offsets_tail =
              omega (arith, bit_and_low 7 (t.offsets.tail + 1), length-append fs (f ∷ []));
          data_head_in = omega (arith, w.head_kept);
          data_tail =
              omega
                (arith, w.head_kept, w.tail_moved, length-image f, stored_total-append fs (f ∷ []));
          num = omega (arith, length-append fs (f ∷ []), totals fs hold.fields);
          used = omega (arith, size_is, counted_total-append fs (f ∷ []));
          within = omega (arith, size_is);
          limited = hold.limited;
          fields = All-append_field fs f hold.fields hf;
        }
