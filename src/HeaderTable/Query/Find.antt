-- ===== src/HeaderTable/Query/Find.antt =====
-- Looking up a field that the table holds.
use libhpack.Common.{ℕ, zero, suc, ◌+◌, ◌-◌, ◌%◌, ◌^◌, ◌≤◌, ◌<◌, ◌≡◌, refl, ap, ◌∙◌, arith}
use libhpack.Common.{List, [], ◌∷◌, ◌++◌, length, All, get_elem?, get_elem?_total, some}
use libhpack.Common.{
  inl, inr, ◌⊎◌, Bool, true, false, ltb, leb, if◌then◌else◌, Bool-cases, bit_and_low,
}
use libhpack.Common.Ret.{ok, not_found}
use libhpack.Common.Run.{done}
use libhpack.Buffer
use libhpack.Buffer.{Buffer}
use libhpack.HeaderField.{Field}
use libhpack.HeaderTable.DataRing
use libhpack.HeaderTable.DataRing.{DataRing, data_size}
use libhpack.HeaderTable.DataRing.Window.{window, window-first, window-rest}
use libhpack.HeaderTable.DataRing.Write.{move_lem}
use libhpack.HeaderTable.DataRing.Read.{IsReadable, get-window}
use libhpack.HeaderTable.OffsetsRing.{index_switch}
use libhpack.HeaderTable.Info.{info_size, to_bytes, of_bytes, length-to_bytes, of_bytes-to_bytes}
use libhpack.HeaderTable.StaticTable.{static_entries, static_table}
use libhpack.HeaderTable.Table.{Table}
use libhpack.HeaderTable.Holds.{
  Holds, IsField, Chain, image, record_of, stored_size, stored_total, totals,
}
use mathlib.Core.Path.{subst}
use libhpack.HeaderTable.Query.{get_set_idx, get}

-- Where the three reads of a field that stands at `p` are right.
pub record IsFieldReadable (h : DataRing) (p : ℕ) (f : Field) : Type 0 where
  pub info_readable : IsReadable h p info_size
  pub name_readable : IsReadable h ((p + info_size) % data_size) (length f.name.bytes)
  pub value_readable :
      IsReadable h
        (((p + info_size) % data_size + length f.name.bytes) % data_size)
        (length f.value.bytes)

-- Before anything is evicted, the head is at the start, and every field can be read.
pub IsFieldReadable-start :
    (h : DataRing) (p : ℕ) (f : Field)
    → h.head ≡ 0
    → p < data_size
    → stored_size f ≤ data_size
    → IsFieldReadable h p f
IsFieldReadable-start h p f start hp small = record {
  info_readable = readable p info_size hp (omega arith);
  name_readable =
      readable ((p + info_size) % data_size) (length f.name.bytes) (omega arith) (omega arith);
  value_readable =
      readable (((p + info_size) % data_size + length f.name.bytes) % data_size)
        (length f.value.bytes) (omega arith) (omega arith);
}
  where
    readable : (q n : ℕ) → q < data_size → n ≤ data_size → IsReadable h q n
    readable q n hq hn = record {
      offset_in = hq;
      head_in = omega arith;
      size_in = hn;
      unbroken = inl start;
    }

-- The `k`-th field of a chain, from the oldest on.
Chain-at :
    (ob db : ℕ → ℕ) (o d k : ℕ) (fs : List Field) (f : Field)
    → d < data_size
    → o < 128
    → Chain ob db o d fs
    → All IsField fs
    → get_elem? fs k ≡ some f
    → (ob ((o + k) % 128) < data_size)
      × (window db (ob ((o + k) % 128)) (stored_size f) ≡ image f)
      × IsField f
      × (stored_size f ≤ stored_total fs)
Chain-at ob db o d k [] f hd ho c hs e = absurd (ground arith)
Chain-at ob db o d zero (g ∷ fs) f hd ho (c0, c1, c2) (h, hs) e =
    let here : ob ((o + 0) % 128) ≡ d = ap ob (omega arith) ∙ c0 in
    let same : g ≡ f = cc in
    subst
      (λ x.
        (ob ((o + 0) % 128) < data_size)
        × (window db (ob ((o + 0) % 128)) (stored_size x) ≡ image x)
        × IsField x
        × (stored_size x ≤ stored_size g + stored_total fs))
      same (omega (arith, here), rw here c1, h, omega arith)
Chain-at ob db o d (suc k) (g ∷ fs) f hd ho (c0, c1, c2) (h, hs) e =
    let same : ((o + 1) % 128 + k) % 128 ≡ (o + suc k) % 128 = omega arith in
    let (p_in, stands, hf, small) = rw same at (
      Chain-at ob db ((o + 1) % 128) ((d + stored_size g) % data_size) k fs f (omega arith)
        (omega arith) c2 hs e) in
    (p_in, stands, hf, omega arith)

-- What a lookup delivers of a field: the name and, unless only the name is wanted, the value are
-- added to what the buffers hold.
abbrev pub delivered : Field → Bool → Field → Field
delivered f only_name out = record {
  flags = f.flags;
  name = Buffer.add out.name f.name.bytes;
  value = if only_name then out.value else Buffer.add out.value f.value.bytes;
}

module _ (t : Table) (pos : ℕ) (f : Field) (out : Field) (p_in : t.offsets.buffer pos < data_size)
    (stands : window t.bytes.buffer (t.offsets.buffer pos) (stored_size f) ≡ image f)
    (hf : IsField f) (readable : IsFieldReadable t.bytes (t.offsets.buffer pos) f) where
  p : ℕ
  p = t.offsets.buffer pos

  reads_info :
      (DataRing.get t.bytes p [] info_size ≡ done (ok, to_bytes (record_of f)))
      × (of_bytes (to_bytes (record_of f)) ≡ some (record_of f))
  unfolding p
  reads_info = (
    (get-window t.bytes p info_size [] out.name readable.info_readable).0
        ∙ ap (λ xs. done (ok, xs))
            (window-first t.bytes.buffer p info_size (length f.name.bytes + length f.value.bytes)
              (to_bytes (record_of f)) (f.name.bytes ++ f.value.bytes) p_in
              (length-to_bytes (record_of f)) stands),
    of_bytes-to_bytes (record_of f) hf.flags_in,
  )

  texts :
      window t.bytes.buffer
        ((p + info_size) % data_size)
        (length f.name.bytes + length f.value.bytes)
      ≡ f.name.bytes ++ f.value.bytes
  unfolding p
  texts =
      window-rest t.bytes.buffer p info_size (length f.name.bytes + length f.value.bytes)
        (to_bytes (record_of f)) (f.name.bytes ++ f.value.bytes) p_in
        (length-to_bytes (record_of f)) stands

  reads_name :
      DataRing.get_chula t.bytes (DataRing.move p info_size) out.name (length f.name.bytes)
      ≡ done (ok, Buffer.add out.name f.name.bytes)
  unfolding p
  reads_name =
      ap (λ q. DataRing.get_chula t.bytes q out.name (length f.name.bytes)) (move_lem p info_size)
      ∙ (get-window t.bytes ((p + info_size) % data_size) (length f.name.bytes) [] out.name
          readable.name_readable).1
      ∙ ap (λ xs. done (ok, Buffer.add out.name xs))
          (window-first t.bytes.buffer ((p + info_size) % data_size) (length f.name.bytes)
            (length f.value.bytes) f.name.bytes f.value.bytes (omega arith) refl texts)

  reads_value :
      DataRing.get_chula t.bytes
        (DataRing.move (DataRing.move p info_size) (length f.name.bytes))
        out.value
        (length f.value.bytes)
      ≡ done (ok, Buffer.add out.value f.value.bytes)
  unfolding p
  reads_value =
      let at1 = move_lem p info_size in
      let at2 = move_lem (DataRing.move p info_size) (length f.name.bytes) in
      ap (λ q. DataRing.get_chula t.bytes q out.value (length f.value.bytes))
        (at2 ∙ ap (λ q. (q + length f.name.bytes) % data_size) at1)
      ∙ (get-window t.bytes (((p + info_size) % data_size + length f.name.bytes) % data_size)
          (length f.value.bytes) [] out.value readable.value_readable).1
      ∙ ap (λ xs. done (ok, Buffer.add out.value xs))
          (window-rest t.bytes.buffer ((p + info_size) % data_size) (length f.name.bytes)
            (length f.value.bytes) f.name.bytes f.value.bytes (omega arith) refl texts)

  get_set_idx-at :
      (only_name : Bool)
      → pos < 128
      → index_switch t.offsets pos ≤ t.num_headers
      → get_set_idx t pos only_name out ≡ done (ok, delivered f only_name out)
  unfolding get_set_idx p
  get_set_idx-at true hp ho =
      let a : leb 128 pos ≡ false = ground arith in
      let b : ltb t.num_headers (index_switch t.offsets pos) ≡ false = ground arith in
      rw (a, b, reads_info.0, reads_info.1, reads_name)
  get_set_idx-at false hp ho =
      let a : leb 128 pos ≡ false = ground arith in
      let b : ltb t.num_headers (index_switch t.offsets pos) ≡ false = ground arith in
      elim (Bool-cases (ltb 0 (length f.value.bytes))) [
        | inl some_value ↦
            rw (a, b, reads_info.0, reads_info.1, reads_name, some_value, reads_value)
        | inr no_value ↦
            rw (a, b, reads_info.0, reads_info.1, reads_name, no_value, no_bytes (ground arith))
      ]
    where
      is_nil : (xs : List ℕ) → length xs ≡ 0 → xs ≡ []
      is_nil [] e = refl
      is_nil (x ∷ xs) e = absurd (omega arith)

      no_bytes : length f.value.bytes ≡ 0 → Buffer.add out.value f.value.bytes ≡ out.value
      no_bytes e = unfold Buffer.add in rw (is_nil f.value.bytes e)

-- The HPACK index `n`, from 1 on, names the `n`-th newest of the fields that the table holds: the
-- lookup succeeds, with the flags, the name and, unless only the name is wanted, the value added to
-- the buffers, and with the mark of a field that is not static. The field must stand where it can
-- be read, which it does as long as nothing has been evicted.
pub get-Holds :
    (t : Table) (fs : List Field) (n : ℕ) (f : Field) (only_name : Bool) (out : Field) (s : Bool)
    → Holds t fs
    → 0 < n
    → n ≤ length fs
    → get_elem? fs (length fs - n) ≡ some f
    → (t.bytes.head ≡ 0) ⊎ IsFieldReadable t.bytes (t.offsets.buffer (index_switch t.offsets n)) f
    → get t n only_name out s ≡ done (ok, delivered f only_name out, false)
get-Holds t fs n f only_name out s hold h0 hn e readable =
    let few = totals fs hold.fields in
    let at_n : index_switch t.offsets n ≡ (t.offsets.head + (length fs - n)) % 128 =
      unfold index_switch in
      omega
        (arith, bit_and_low 7 (t.offsets.tail + 2 ^ 16 + 128 - n), hold.offsets_tail, hold.used) in
    let back : index_switch t.offsets (index_switch t.offsets n) ≤ t.num_headers =
      unfold index_switch in
      omega (
        arith,
        bit_and_low 7 (t.offsets.tail + 2 ^ 16 + 128 - n),
        bit_and_low 7 (t.offsets.tail + 2 ^ 16 + 128 - index_switch t.offsets n),
        hold.offsets_tail,
        hold.used,
        hold.num,
      ) in
    let (p_in, stands, hf, small) =
      Chain-at t.offsets.buffer t.bytes.buffer t.offsets.head t.bytes.head (length fs - n) fs f
        hold.data_head_in hold.offsets_head_in hold.chain hold.fields e in
    let can_read : IsFieldReadable t.bytes (t.offsets.buffer (index_switch t.offsets n)) f =
      elim readable [
        | inl start ↦
            IsFieldReadable-start t.bytes (t.offsets.buffer (index_switch t.offsets n)) f start
              (rw at_n p_in) (omega (arith, hold.used, hold.within, hold.limited))
        | inr r ↦ r
      ] in
    let from_ring =
      get_set_idx-at t (index_switch t.offsets n) f out (rw at_n p_in) (rw at_n stands) hf can_read
        only_name (omega (arith, at_n)) back in
    let known : ltb (static_entries + t.num_headers) n ≡ false = ground (arith, hold.num) in
    let dynamic : ltb t.num_headers n ≡ false = ground (arith, hold.num) in
    unfold get in rw (known, dynamic, from_ring)

length-static_table : length static_table ≡ static_entries
unfolding static_table
length-static_table = refl

-- HPACK indexes above the number of fields name the entries of the static table, in order, and
-- those above both tables are not found; the maximum and the rings do not matter.
pub get_elsewhere :
    (t : Table) (n : ℕ) (only_name : Bool) (out : Field) (is_static : Bool)
    → t.num_headers < n
    → (n ≤ t.num_headers + static_entries
        → (s : Field) × (get_elem? static_table (n - (t.num_headers + 1)) ≡ some s)
          × (get t n only_name out is_static
              ≡ done (
                ok,
                record {
                  flags = s.flags;
                  name = Buffer.add_buffer out.name s.name;
                  value = if only_name then out.value else Buffer.add_buffer out.value s.value;
                },
                true,
              )))
      × (t.num_headers + static_entries < n
          → get t n only_name out is_static ≡ done (not_found, out, is_static))
get_elsewhere t n only_name out is_static above = (
  λ known.
      let (s, e) =
        get_elem?_total static_table (n - (t.num_headers + 1))
          (omega (arith, length-static_table)) in
      let here : ltb (static_entries + t.num_headers) n ≡ false = ground arith in
      let static : ltb t.num_headers n ≡ true = ground arith in
      (s, e, unfold get in rw (here, static, e)),
  λ beyond.
      let here : ltb (static_entries + t.num_headers) n ≡ true = ground arith in
      unfold get in rw here,
)
