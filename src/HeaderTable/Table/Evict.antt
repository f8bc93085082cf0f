-- ===== src/HeaderTable/Table/Evict.antt =====
-- An eviction from a table that holds fields.
use libhpack.Common.{ℕ, ◌+◌, ◌%◌, ◌<◌, ◌≡◌, refl, arith, bit_and_low, ◌==◌}
use libhpack.Common.{List, [], ◌∷◌, ◌++◌, length, some, true, false}
use libhpack.Common.Ret.{ok}
use libhpack.Common.Run.{done}
use libhpack.HeaderField.{Field}
use libhpack.HeaderTable.DataRing
use libhpack.HeaderTable.DataRing.{data_size}
use libhpack.HeaderTable.DataRing.Window.{window, window-first}
use libhpack.HeaderTable.DataRing.Write.{move_lem}
use libhpack.HeaderTable.DataRing.Read.{IsReadable, get-window}
use libhpack.HeaderTable.OffsetsRing
use libhpack.HeaderTable.Info.{info_size, to_bytes, of_bytes, length-to_bytes, of_bytes-to_bytes}
use libhpack.HeaderTable.Table.{Table, removed, evict}
use libhpack.HeaderTable.Holds.{Holds, image, record_of, stored_size, totals}
use libhpack.Buffer
use libhpack.Buffer.{Buffer}

pub record-window :
    (buffer : ℕ → ℕ) (pos : ℕ) (f : Field)
    → pos < data_size
    → window buffer pos (stored_size f) ≡ image f
    → window buffer pos info_size ≡ to_bytes (record_of f)
record-window buffer pos f hp e =
    window-first buffer pos info_size (length f.name.bytes + length f.value.bytes)
      (to_bytes (record_of f)) (f.name.bytes ++ f.value.bytes) hp (length-to_bytes (record_of f)) e

-- An eviction takes out the oldest field, where its record can be read: it succeeds, tells that
-- field's position, leaves the maximum as it is, and the table holds the other fields. The heads
-- move on by one position and by the bytes of the field.
pub evict-Holds :
    (t : Table) (f : Field) (fs : List Field) (evicted : ℕ)
    → Holds t (f ∷ fs)
    → IsReadable t.bytes t.bytes.head info_size
    → (t' : Table) × (evict t evicted ≡ done (ok, t', t.offsets.head))
      × Holds t' fs
      × (t'.max_data ≡ t.max_data)
      × (t'.offsets.head ≡ (t.offsets.head + 1) % 128)
      × (t'.bytes.head ≡ (t.bytes.head + stored_size f) % data_size)
evict-Holds t f fs evicted hold readable =
    let (at_head, stands, rest) = hold.chain in
    let (hf, hfs) = hold.fields in
    let t' = removed t (record_of f) in
    let raw = get-window t.bytes t.bytes.head info_size [] Buffer.init readable in
    let bytes_are = record-window t.bytes.buffer t.bytes.head f hold.data_head_in stands in
    let info_is = of_bytes-to_bytes (record_of f) hf.flags_in in
    (
      t',
      runs raw.0 bytes_are info_is at_head (omega (arith, hold.num)),
      after-Holds,
      unfold removed in refl,
      unfold removed in next_offset,
      unfold removed in next_data,
    )
  where
    runs :
        DataRing.get t.bytes t.bytes.head [] info_size
          ≡ done (ok, window t.bytes.buffer t.bytes.head info_size)
        → window t.bytes.buffer t.bytes.head info_size ≡ to_bytes (record_of f)
        → of_bytes (to_bytes (record_of f)) ≡ some (record_of f)
        → t.offsets.buffer t.offsets.head ≡ t.bytes.head
        → 0 < t.num_headers
        → evict t evicted ≡ done (ok, removed t (record_of f), t.offsets.head)
    runs e1 e2 e3 e4 e5 =
        unfold evict in
        let n : (t.num_headers == 0) ≡ false = ground arith in
        let h : (t.bytes.head == t.bytes.head) ≡ true = ground arith in rw (n, e4, h, e1, e2, e3)

    next_offset : OffsetsRing.move t.offsets.head 1 ≡ (t.offsets.head + 1) % 128
    next_offset = bit_and_low 7 (t.offsets.head + 1)

    next_data :
        DataRing.move t.bytes.head (info_size + (length f.name.bytes + length f.value.bytes))
        ≡ (t.bytes.head + stored_size f) % data_size
    next_data = move_lem t.bytes.head (stored_size f)

    after-Holds : Holds (removed t (record_of f)) fs
    after-Holds =
        let (at_head, stands, rest) = hold.chain in
        unfold removed in
        record {
          chain = rw (next_offset, next_data) rest;
          offsets_head_in = omega (arith, next_offset);
          offsets_tail = omega (arith, next_offset);
          data_head_in = omega (arith, next_data);
          data_tail = omega (arith, next_data);
          num = omega (arith, hold.num);
          used = omega (arith, hold.used, totals fs hold.fields.1);
          within = omega (arith, hold.used, totals fs hold.fields.1);
          limited = hold.limited;
          fields = hold.fields.1;
        }
