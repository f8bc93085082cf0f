-- ===== src/HeaderTable/Holds.antt =====
-- When a header table holds a list of fields, the oldest first.
use libhpack.Common.{ℕ, suc, ◌+◌, ◌*◌, ◌%◌, ◌≤◌, ◌<◌, ◌≡◌, ◌≢◌, ap, sym, ◌∙◌, arith}
use libhpack.Common.{List, [], ◌∷◌, ◌++◌, length, All, length-append, true}
use libhpack.HeaderField.{Field, entry_overhead}
use libhpack.HeaderTable.DataRing.{DataRing, data_size}
use libhpack.HeaderTable.DataRing.Window.{window}
use libhpack.HeaderTable.DataRing.Write.{IsWritten, window-IsWritten, window-kept}
use libhpack.HeaderTable.Info.{Info, IsFlags, info_size, to_bytes, length-to_bytes}
use libhpack.HeaderTable.Table.{Table}

-- The record of a field, its size in the ring, and the bytes that it takes there.
abbrev pub record_of : Field → Info
record_of f = record {
  name_length = length f.name.bytes;
  value_length = length f.value.bytes;
  flags = f.flags;
}

abbrev pub stored_size : Field → ℕ
stored_size f = info_size + (length f.name.bytes + length f.value.bytes)

abbrev pub image : Field → List ℕ
image f = to_bytes (record_of f) ++ (f.name.bytes ++ f.value.bytes)

-- The size of a field that the specification counts.
abbrev pub counted_size : Field → ℕ
counted_size f = length f.name.bytes + length f.value.bytes + entry_overhead

abbrev pub stored_total : List Field → ℕ
stored_total [] = 0
stored_total (f ∷ fs) = stored_size f + stored_total fs

abbrev pub counted_total : List Field → ℕ
counted_total [] = 0
counted_total (f ∷ fs) = counted_size f + counted_total fs

pub length-image : (f : Field) → length (image f) ≡ stored_size f
length-image f = omega (
  arith,
  length-append (to_bytes (record_of f)) (f.name.bytes ++ f.value.bytes),
  length-append f.name.bytes f.value.bytes,
  length-to_bytes (record_of f),
)

-- A field that a table can take: with a byte at least, flags that fit their bits, and memory under
-- both buffers where the code wants it.
pub record IsField (f : Field) : Type 0 where
  pub not_empty : 0 < length f.name.bytes + length f.value.bytes
  pub flags_in : IsFlags f.flags
  pub name_memory : f.name.has_memory ≡ true
  pub value_memory : 0 < length f.value.bytes → f.value.has_memory ≡ true

-- The fields stand one behind the other, from position `o` of the offsets and `d` of the data on.
abbrev pub Chain : (ℕ → ℕ) → (ℕ → ℕ) → ℕ → ℕ → List Field → Type 0
Chain ob db o d [] = Unit {0}
Chain ob db o d (f ∷ fs) =
    (ob o ≡ d)
    × (window db d (stored_size f) ≡ image f)
    × Chain ob db ((o + 1) % 128) ((d + stored_size f) % data_size) fs

pub record Holds (t : Table) (fs : List Field) : Type 0 where
  pub chain : Chain t.offsets.buffer t.bytes.buffer t.offsets.head t.bytes.head fs
  pub offsets_head_in : t.offsets.head < 128
  pub offsets_tail : t.offsets.tail ≡ (t.offsets.head + length fs) % 128
  pub data_head_in : t.bytes.head < data_size
  pub data_tail : t.bytes.tail ≡ (t.bytes.head + stored_total fs) % data_size
  pub num : t.num_headers ≡ length fs
  pub used : t.used_data ≡ counted_total fs
  pub within : t.used_data ≤ t.max_data
  pub limited : t.max_data ≤ 4096
  pub fields : All IsField fs

-- Counted sizes leave room in both rings.
pub totals :
    (fs : List Field)
    → All IsField fs
    → (stored_total fs + 24 * length fs ≡ counted_total fs) × (33 * length fs ≤ counted_total fs)
totals [] h = omega arith
totals (f ∷ fs) (h, hs) = omega (arith, totals fs hs, h.not_empty)

pub stored_total-append :
    (fs gs : List Field) → stored_total (fs ++ gs) ≡ stored_total fs + stored_total gs
stored_total-append [] gs = omega arith
stored_total-append (f ∷ fs) gs = omega (arith, stored_total-append fs gs)

pub counted_total-append :
    (fs gs : List Field) → counted_total (fs ++ gs) ≡ counted_total fs + counted_total gs
counted_total-append [] gs = omega arith
counted_total-append (f ∷ fs) gs = omega (arith, counted_total-append fs gs)

pub All-append_field :
    (fs : List Field) (f : Field) → All IsField fs → IsField f → All IsField (fs ++ (f ∷ []))
All-append_field [] f h hf = (hf, tt)
All-append_field (g ∷ fs) f (hg, h) hf = (hg, All-append_field fs f h hf)

-- A write behind the fields, in both rings, keeps the chain and makes it longer by a field.
pub Chain-snoc :
    (ob ob' : ℕ → ℕ) {h h' : DataRing} (f : Field) (o d : ℕ) (fs : List Field)
    → o < 128
    → d < data_size
    → length fs < 128
    → h.tail < data_size
    → h.tail ≡ (d + stored_total fs) % data_size
    → stored_total fs + stored_size f < data_size
    → ((i : ℕ) → i ≢ (o + length fs) % 128 → ob' i ≡ ob i)
    → ob' ((o + length fs) % 128) ≡ h.tail
    → IsWritten h (image f) h'
    → Chain ob h.buffer o d fs
    → Chain ob' h'.buffer o d (fs ++ (f ∷ []))
Chain-snoc ob ob' {h} {h'} f o d [] ho hd few ht at room kept new w c = (
  ap ob' (omega arith) ∙ new ∙ (let e : h.tail ≡ d = omega arith in e),
  ap (λ p. window h'.buffer p (stored_size f)) (omega arith)
      ∙ ap (λ n. window h'.buffer h.tail n) (sym (length-image f))
      ∙ window-IsWritten ht (omega (arith, length-image f)) w,
  tt,
)
Chain-snoc ob ob' {h} {h'} f o d (g ∷ fs) ho hd few ht at room kept new w (c0, c1, c2) =
    let same : ((o + 1) % 128 + length fs) % 128 ≡ (o + suc (length fs)) % 128 = omega arith in
    (
      kept o (omega arith) ∙ c0,
      window-kept (stored_size g) d ht hd w (λ k hk. omega (arith, length-image f)) ∙ c1,
      Chain-snoc ob ob' f ((o + 1) % 128) ((d + stored_size g) % data_size) fs (omega arith)
          (omega arith) (omega arith) ht (omega arith) (omega arith)
          (λ i ne. kept i (λ e. ne (e ∙ sym same))) (ap ob' same ∙ new) w c2,
    )
