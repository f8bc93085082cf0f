-- ===== src/HeaderParser/Agreement/Newest.antt =====
-- A field that has come into the table, and whose position comes into the reference set.
use libhpack.Common.{ℕ, ◌+◌, ◌-◌, ◌%◌, ◌≤◌, ◌<◌, ◌≡◌, ◌∙◌, ap, arith}
use libhpack.Common.{List, [], ◌∷◌, ◌++◌, length, length-append, true, false, not}
use libhpack.Common.{◌==◌, ◌&&◌, ◌||◌, Bool-cases, inl, inr}
use libhpack.Common.Ret.{ok}
use libhpack.Common.Run.{done}
use libhpack.BitmapSet
use libhpack.BitmapSet.Member.{exists-add, exists-remove}
use libhpack.HeaderField.{Field}
use libhpack.HeaderTable.Table.{Table}
use libhpack.HeaderTable.Table.Shrink.{AreHeads, shrunk_shorter}
use libhpack.HeaderTable.Table.Marked.{is_within, within_left, within_next}
use libhpack.HeaderTable.Holds.{Holds, IsField, counted_size}
use libhpack.HeaderTable.Update.Room.{marks}
use libhpack.HeaderParser.{Context, with_evictions, add_field_process_evictions}
use libhpack.HeaderParser.Representations.{referenced, position_of}
use libhpack.HeaderParser.Agreement.{
  IsSound, gone, kept, no_set, exists-evicted, newest_position, few_fields, adds,
}

-- What the new context has to do with the old one, the table having been made to hold `f`.
pub record IsIndexed (c c' : Context) (fs : List Field) (f : Field) : Type 0 where
  pub sound : IsSound c' (kept c fs f ++ (f ∷ []))
  pub max_kept : c'.table.max_data ≡ c.table.max_data
  pub reference_is :
      (i : ℕ)
      → BitmapSet.exists c'.reference_set i ≡ (
          (c.table.offsets.tail == i)
          || (BitmapSet.exists c.reference_set i
              && not (is_within c.table.offsets.head (gone fs (kept c fs f)) i)))
  pub pending_is :
      (i : ℕ)
      → BitmapSet.exists c'.ref_not_emitted i ≡ (
          BitmapSet.exists c.ref_not_emitted i
          && not (is_within c.table.offsets.head (gone fs (kept c fs f)) i))

module _ (c : Context) (fs : List Field) (f : Field) (sound : IsSound c fs) (t : Table)
    (hold : Holds t (kept c fs f ++ (f ∷ []))) (max_is : t.max_data ≡ c.table.max_data)
    (head_is : t.offsets.head ≡ (c.table.offsets.head + gone fs (kept c fs f)) % 128) where
  abbrev evicted : Context
  evicted = with_evictions c t (marks c.table fs (kept c fs f) no_set)

  shorter : length (kept c fs f) ≤ length fs
  shorter = shrunk_shorter (c.table.max_data - counted_size f) fs

  place : position_of evicted 1 ≡ c.table.offsets.tail
  place =
      newest_position t (kept c fs f) f hold
      ∙ omega (arith, head_is, sound.holds.offsets_tail, shorter, sound.holds.offsets_head_in)

  reference_members :
      (i : ℕ)
      → BitmapSet.exists (referenced evicted 1).reference_set i ≡ (
          (c.table.offsets.tail == i)
          || (BitmapSet.exists c.reference_set i
              && not (is_within c.table.offsets.head (gone fs (kept c fs f)) i)))
  reference_members i =
      let (_, m) = exists-add evicted.reference_set (position_of evicted 1) i in
      let tail_in : c.table.offsets.tail < 128 = omega (arith, sound.holds.offsets_tail) in
      m
      ∙ ground (
        arith,
        place,
        exists-evicted c.reference_set c.table fs (kept c fs f) no_set i sound.holds,
      )

  -- The position of the new field was not pending.
  new_place : BitmapSet.exists c.ref_not_emitted c.table.offsets.tail ≡ false
  new_place = elim (Bool-cases (BitmapSet.exists c.ref_not_emitted c.table.offsets.tail)) [
    | inr out ↦ out
    | inl there ↦
        let live = sound.members c.table.offsets.tail (sound.pending c.table.offsets.tail there) in
        let (out, _) =
          within_next c.table.offsets.head (length fs) sound.holds.offsets_head_in
            (few_fields sound.holds) in
        let at_tail =
          ap (λ x. is_within c.table.offsets.head (length fs) x) sound.holds.offsets_tail in
        absurd (cc (live, at_tail, out))
  ]

  pending_members :
      (i : ℕ)
      → BitmapSet.exists (referenced evicted 1).ref_not_emitted i ≡ (
          BitmapSet.exists c.ref_not_emitted i
          && not (is_within c.table.offsets.head (gone fs (kept c fs f)) i))
  pending_members i =
      let (_, m) = exists-remove evicted.ref_not_emitted (position_of evicted 1) i in
      elim (Bool-cases (c.table.offsets.tail == i)) [
        | inl same ↦
            let e : i ≡ c.table.offsets.tail = ground arith in
            let out : BitmapSet.exists c.ref_not_emitted i ≡ false =
              ap (λ x. BitmapSet.exists c.ref_not_emitted x) e ∙ new_place in
            m
            ∙ ground (
              arith,
              out,
              exists-evicted c.ref_not_emitted c.table fs (kept c fs f) no_set i sound.holds,
            )
        | inr other ↦
            m
            ∙ ground (
              arith,
              place,
              exists-evicted c.ref_not_emitted c.table fs (kept c fs f) no_set i sound.holds,
            )
      ]

  size_is : length (kept c fs f ++ (f ∷ [])) ≡ length fs - gone fs (kept c fs f) + 1
  size_is = omega (arith, length-append (kept c fs f) (f ∷ []), shorter)

  live_member :
      (i : ℕ)
      → BitmapSet.exists c.reference_set i ≡ true
      → is_within c.table.offsets.head (gone fs (kept c fs f)) i ≡ false
      → is_within t.offsets.head (length (kept c fs f ++ (f ∷ []))) i ≡ true
  live_member i there stays =
      rw (size_is, head_is)
        (within_left c.table.offsets.head (length fs) (gone fs (kept c fs f)) i
          sound.holds.offsets_head_in (few_fields sound.holds) (omega arith) (sound.members i there)
          stays)

  live_newest :
      is_within t.offsets.head (length (kept c fs f ++ (f ∷ []))) c.table.offsets.tail ≡ true
  live_newest =
      let n = length fs - gone fs (kept c fs f) in
      let few = few_fields sound.holds in
      let at_tail : c.table.offsets.tail ≡ (t.offsets.head + n) % 128 =
        omega (arith, head_is, sound.holds.offsets_tail, shorter) in
      rw (size_is, at_tail) (within_next t.offsets.head n hold.offsets_head_in (omega arith)).1

  newest-IsSound : IsSound (referenced evicted 1) (kept c fs f ++ (f ∷ []))
  newest-IsSound = record {
    holds = hold;
    members = λ i h. elim (Bool-cases (c.table.offsets.tail == i)) [
      | inl same ↦ let e : i ≡ c.table.offsets.tail = ground arith in rw e live_newest
      | inr other ↦ let m = reference_members i in live_member i (ground arith) (ground arith)
    ];
    pending = λ i h.
        let m = reference_members i in
        let n = pending_members i in
        let kept_pending : BitmapSet.exists c.ref_not_emitted i ≡ true = ground arith in
        let old = sound.pending i kept_pending in ground arith;
  }

-- What becomes of a context when a field is added and its position referenced.
pub referenced-IsIndexed :
    (c : Context) (fs : List Field) (f : Field)
    → IsSound c fs
    → IsField f
    → counted_size f ≤ c.table.max_data
    → AreHeads c.table.bytes.head fs
    → (c' : Context) × (add_field_process_evictions c f ≡ done (ok, c', true))
      × IsIndexed c (referenced c' 1) fs f
referenced-IsIndexed c fs f sound hf small heads =
    let (t, e, h, m, o) = adds c fs f sound hf small heads in
    (
      with_evictions c t (marks c.table fs (kept c fs f) no_set),
      e,
      record {
        sound = newest-IsSound c fs f sound t h m o;
        max_kept = m;
        reference_is = reference_members c fs f sound t h m o;
        pending_is = pending_members c fs f sound t h m o;
      },
    )
