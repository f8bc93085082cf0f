-- ===== src/HeaderTable/Update/Room.antt =====
-- Adding a field and changing the maximum: which fields the table holds behind the call.
use libhpack.Common.{ℕ, suc, ◌+◌, ◌-◌, ◌%◌, ◌≤◌, ◌<◌, ◌≡◌, refl, ◌∙◌, arith}
use libhpack.Common.{List, [], ◌∷◌, ◌++◌, length, if◌then◌else◌, false, ltb, ◌==◌}
use libhpack.Common.{bit_and_low, Bool-cases, inl, inr}
use libhpack.Common.Ret.{ok, error}
use libhpack.Common.Run.{done}
use libhpack.BitmapSet
use libhpack.BitmapSet.{BitmapSet}
use libhpack.HeaderField.{Field, get_size}
use libhpack.HeaderTable.OffsetsRing
use libhpack.HeaderTable.Table.{Table, clear, evict_while, settings_header_table_size}
use libhpack.HeaderTable.Table.Shrink.{AreHeads, shrunk, marked, shrunk_fits, evict_while-Holds}
use libhpack.HeaderTable.Holds.{Holds, IsField, counted_size, totals}
use libhpack.HeaderTable.Update.{store_field, no_room, add, over, with_max, set_max}
use libhpack.HeaderTable.Update.Store.{store_field-Holds, get_size-IsField}

-- A table that was set up, or cleared, holds no field, and its maximum is the default.
pub clear-Holds :
    (t : Table) → Holds (clear t) [] × ((clear t).max_data ≡ settings_header_table_size)
unfolding clear
clear-Holds t = (
  record {
    chain = tt;
    offsets_head_in = omega arith;
    offsets_tail = refl;
    data_head_in = omega arith;
    data_tail = refl;
    num = refl;
    used = refl;
    within = omega arith;
    limited = omega arith;
    fields = tt;
  },
  refl,
)

-- The positions that an eviction of all but `kept` marks in a set that was empty.
abbrev pub marks : Table → List Field → List Field → BitmapSet → BitmapSet
marks t fs kept set = marked (BitmapSet.clear set) t.offsets.head (length fs - length kept)

-- A field that the maximum has room for is added: the oldest fields go until it fits, and no more,
-- the table then holds the others and the field behind them, its maximum is as it was, the head of the
-- offsets has moved on by as many positions as fields went, and the set names these positions. The records must stand where they can be read.
pub add-Holds :
    (t : Table) (fs : List Field) (f : Field) (set : BitmapSet) (e : ℕ)
    → Holds t fs
    → IsField f
    → counted_size f ≤ t.max_data
    → AreHeads t.bytes.head fs
    → let kept : List Field = shrunk (t.max_data - counted_size f) fs in
      (t' : Table) × (add t f set e ≡ done (ok, t', marks t fs kept set))
      × Holds t' (kept ++ (f ∷ []))
      × (t'.max_data ≡ t.max_data)
      × (t'.offsets.head ≡ (t.offsets.head + (length fs - length kept)) % 128)
add-Holds t fs f set e hold hf small heads =
    let size_is = get_size-IsField f hf (omega (arith, hold.limited)) in
    let kept = shrunk (t.max_data - counted_size f) fs in
    let (t1, e1, hold1, same1, o1) =
      evict_while-Holds (no_room (get_size f)) (t.max_data - counted_size f) t.max_data
        (suc t.num_headers) t fs (BitmapSet.clear set) e (λ s same. ground arith) refl
        (omega (arith, hold.num)) hold heads in
    let fits = shrunk_fits (t.max_data - counted_size f) fs in
    let (t2, e2, hold2, same2, o2) =
      store_field-Holds t1 kept f hold1 hf (omega (arith, hold1.used)) in
    (t2, runs t1 t2 kept size_is e1 e2 (not_full t1 kept hold1), hold2, same2 ∙ same1, o2 ∙ o1)
  where
    not_full :
        (t1 : Table) (kept : List Field) → Holds t1 kept → OffsetsRing.is_full t1.offsets ≡ false
    not_full t1 kept h =
        unfold OffsetsRing.is_full in
        ground (
          arith,
          bit_and_low 7 (t1.offsets.head + 127),
          totals kept h.fields,
          h.offsets_tail,
          h.offsets_head_in,
          h.used,
          h.within,
          h.limited,
        )

    runs :
        (t1 t2 : Table) (kept : List Field)
        → get_size f ≡ counted_size f
        → evict_while (no_room (get_size f)) (suc t.num_headers) t (BitmapSet.clear set) e
          ≡ done (ok, t1, marks t fs kept set)
        → store_field t1 f (get_size f) ≡ done (ok, t2)
        → OffsetsRing.is_full t1.offsets ≡ false
        → add t f set e ≡ done (ok, t2, marks t fs kept set)
    runs t1 t2 kept s e1 e2 e3 =
        let large : ltb t.max_data (get_size f) ≡ false = ground arith in
        unfold add in rw (large, e1, e3, e2)

with_max-Holds :
    (t : Table) (fs : List Field) (max : ℕ)
    → Holds t fs
    → t.used_data ≤ max
    → max ≤ 4096
    → Holds (with_max t max) fs × ((with_max t max).max_data ≡ max)
unfolding with_max
with_max-Holds t fs max h fits small = (
  record {
    chain = h.chain;
    offsets_head_in = h.offsets_head_in;
    offsets_tail = h.offsets_tail;
    data_head_in = h.data_head_in;
    data_tail = h.data_tail;
    num = h.num;
    used = h.used;
    within = fits;
    limited = small;
    fields = h.fields;
  },
  refl,
)

-- A new maximum that is not 0 and not above the default makes the oldest fields go until the
-- others fit it, and no more; the head of the offsets moves on by as many positions as fields go,
-- and the set names these positions. The maximum 0 makes all fields go, and the set is empty. A
-- maximum above the default is refused. The records must stand where they can be read.
pub set_max-Holds :
    (t : Table) (fs : List Field) (max : ℕ) (set : BitmapSet) (e : ℕ)
    → Holds t fs
    → AreHeads t.bytes.head fs
    → (t' : Table) × (set_max t max set e
        ≡ done (
            if ltb settings_header_table_size max
            then (error, t, BitmapSet.clear set)
            else if max == 0
            then (ok, t', BitmapSet.clear set)
            else (ok, t', marks t fs (shrunk max fs) set)))
      × (max ≤ settings_header_table_size
          → Holds t' (if max == 0 then [] else shrunk max fs)
            × (t'.max_data ≡ max)
            × (0 < max
                → t'.offsets.head ≡ (t.offsets.head + (length fs - length (shrunk max fs))) % 128))
set_max-Holds t fs max set e hold heads = elim (Bool-cases (ltb settings_header_table_size max)) [
  | inl above ↦ (t, unfold set_max in rw above, λ small. absurd (ground arith))
  | inr small ↦ elim (Bool-cases (max == 0)) [
    | inl is_zero ↦
        let (h, m) = clear-Holds t in
        (
          with_max (clear t) max,
          unfold set_max in rw (small, is_zero),
          λ _. rw is_zero (
            (with_max-Holds (clear t) [] max h (unfold clear in omega arith) (ground arith)).0,
            unfold with_max in refl,
            λ h0. absurd (ground arith),
          ),
        )
    | inr above_zero ↦
        let (t1, e1, h1, m1, o1) =
          evict_while-Holds (over max) max t.max_data (suc t.num_headers) t fs (BitmapSet.clear set)
            e (λ s same. refl) refl (omega (arith, hold.num)) hold heads in
        (
          with_max t1 max,
          unfold set_max in rw (small, above_zero, e1),
          λ fits. rw above_zero (
            (with_max-Holds t1 (shrunk max fs) max h1 (omega (arith, h1.used, shrunk_fits max fs))
                fits).0,
            unfold with_max in refl,
            λ h0. unfold with_max in o1,
          ),
        )
  ]
]
