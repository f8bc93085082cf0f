-- ===== src/HeaderParser/Agreement.antt =====
-- libhpack/header_parser.c: the decoding context beside the list of fields that its table holds.
pub mod Newest
mod Tests
use libhpack.Common.{ℕ, ◌+◌, ◌-◌, ◌%◌, ◌^◌, ◌≤◌, ◌<◌, ◌≡◌, ◌∙◌, refl, ap, arith}
use libhpack.Common.{List, [], ◌∷◌, ◌++◌, length, length-append, Bool, true, false, not}
use libhpack.Common.{ltb, ◌==◌, ◌&&◌, ◌||◌, bit_and_low}
use libhpack.Common.Ret.{ok}
use libhpack.Common.Run.{done}
use libhpack.BitmapSet
use libhpack.BitmapSet.{BitmapSet}
use libhpack.BitmapSet.Member.{exists-add, exists-remove}
use libhpack.BitmapSet.Algebra.{exists-relative_comp, exists-clear}
use libhpack.HeaderField.{Field}
use libhpack.HeaderTable.OffsetsRing.{index_switch}
use libhpack.HeaderTable.Table.{Table}
use libhpack.HeaderTable.Table.Shrink.{AreHeads, shrunk, shrunk_shorter}
use libhpack.HeaderTable.Table.Marked.{is_within, exists-marked, marked-IsWords, is_full-exists}
use libhpack.HeaderTable.Holds.{Holds, IsField, counted_size, totals}
use libhpack.HeaderTable.Update
use libhpack.HeaderTable.Update.Room.{marks, add-Holds}
use libhpack.HeaderParser.{Context, with_evictions, add_field_process_evictions}
use libhpack.HeaderParser.Representations.{position_of, referenced}

-- The table holds the fields; the reference set has positions of such fields only, and what is
-- still to be emitted is in it.
pub record IsSound (c : Context) (fs : List Field) : Type 0 where
  pub holds : Holds c.table fs
  pub members :
      (i : ℕ)
      → BitmapSet.exists c.reference_set i ≡ true
      → is_within c.table.offsets.head (length fs) i ≡ true
  pub pending :
      (i : ℕ)
      → BitmapSet.exists c.ref_not_emitted i ≡ true
      → BitmapSet.exists c.reference_set i ≡ true

-- What stays of the fields when `f` comes into the table.
abbrev pub kept : Context → List Field → Field → List Field
kept c fs f = shrunk (c.table.max_data - counted_size f) fs

abbrev pub no_set : BitmapSet
no_set = record { entry0 = 0; entry1 = 0 }

-- How many fields an eviction of all but `kept` takes out.
abbrev pub gone : List Field → List Field → ℕ
gone fs kept = length fs - length kept

-- A table has positions left.
pub few_fields : {t : Table} {fs : List Field} → Holds t fs → length fs < 128
few_fields {t} {fs} hold =
    omega (arith, totals fs hold.fields, hold.used, hold.within, hold.limited)

-- The set of evicted positions, by its members.
pub exists-marks :
    (t : Table) (fs kept : List Field) (set : BitmapSet) (j : ℕ)
    → Holds t fs
    → BitmapSet.exists (marks t fs kept set) j ≡ is_within t.offsets.head (gone fs kept) j
exists-marks t fs kept set j hold =
    exists-marked (BitmapSet.clear set) t.offsets.head (gone fs kept) j hold.offsets_head_in
      (omega (arith, few_fields hold))
    ∙ ground (arith, exists-clear set j)

-- The members that an eviction leaves in a set.
pub exists-evicted :
    (s : BitmapSet) (t : Table) (fs kept : List Field) (set : BitmapSet) (j : ℕ)
    → Holds t fs
    → BitmapSet.exists (BitmapSet.relative_comp s (marks t fs kept set)) j
      ≡ (BitmapSet.exists s j && not (is_within t.offsets.head (gone fs kept) j))
exists-evicted s t fs kept set j hold =
    exists-relative_comp s (marks t fs kept set) j (
      marked-IsWords (BitmapSet.clear set) t.offsets.head (gone fs kept)
        (unfold BitmapSet.clear in omega arith))
    ∙ ap (λ m. BitmapSet.exists s j && not m) (exists-marks t fs kept set j hold)

-- The newest field has HPACK index 1.
pub newest_position :
    (t : Table) (fs : List Field) (f : Field)
    → Holds t (fs ++ (f ∷ []))
    → index_switch t.offsets (1 % 2 ^ 16) ≡ (t.offsets.head + length fs) % 128
newest_position t fs f hold =
    unfold index_switch in
    omega (
      arith,
      bit_and_low 7 (t.offsets.tail + 2 ^ 16 + 128 - 1),
      hold.offsets_tail,
      length-append fs (f ∷ []),
    )

module _ (c : Context) (fs : List Field) (f : Field) (sound : IsSound c fs) (hf : IsField f)
    (small : counted_size f ≤ c.table.max_data) (heads : AreHeads c.table.bytes.head fs) where
  -- The field is added, the evicted positions leave both sets, and `*added` is set.
  pub adds :
      (t : Table) × (add_field_process_evictions c f
        ≡ done (ok, with_evictions c t (marks c.table fs (kept c fs f) no_set), true))
      × Holds t (kept c fs f ++ (f ∷ []))
      × (t.max_data ≡ c.table.max_data)
      × (t.offsets.head ≡ (c.table.offsets.head + gone fs (kept c fs f)) % 128)
  adds =
      let (t, e, h, m, o) = add-Holds c.table fs f no_set 0 sound.holds hf small heads in
      (t, runs t e, h, m, o)
    where
      unmarked :
          BitmapSet.exists
            (marks c.table fs (kept c fs f) no_set)
            ((c.table.offsets.head + length fs) % 128)
          ≡ false
      unmarked =
          exists-marks c.table fs (kept c fs f) no_set ((c.table.offsets.head + length fs) % 128)
            sound.holds
          ∙ ground (arith, few_fields sound.holds, sound.holds.offsets_head_in)

      runs :
          (t : Table)
          → Update.add c.table f no_set 0 ≡ done (ok, t, marks c.table fs (kept c fs f) no_set)
          → add_field_process_evictions c f
            ≡ done (ok, with_evictions c t (marks c.table fs (kept c fs f) no_set), true)
      runs t e =
          let part =
            is_full-exists (marks c.table fs (kept c fs f) no_set)
              ((c.table.offsets.head + length fs) % 128) (omega arith) unmarked in
          unfold add_field_process_evictions in rw (e, part)
