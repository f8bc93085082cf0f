-- ===== src/HeaderParser/Representations/Referenced.antt =====
-- `parse_indexed` on an index that is not in the reference set.
use libhpack.Common.{ℕ, ◌+◌, ◌-◌, ◌%◌, ◌^◌, ◌≤◌, ◌<◌, ◌≡◌, ◌∙◌, refl, ap, arith, ◌⊎◌, some}
use libhpack.Common.{List, length, true, false, get_elem?}
use libhpack.Common.{ltb, ◌==◌, ◌||◌, bit_and_low, Bool-cases, inl, inr}
use libhpack.Common.Ret.{ok}
use libhpack.Common.Run.{done}
use libhpack.Buffer
use libhpack.Buffer.{Buffer}
use libhpack.BitmapSet
use libhpack.BitmapSet.Member.{exists-add, exists-remove}
use libhpack.HeaderField.{Field, rep_indexed}
use libhpack.HeaderTable.OffsetsRing.{index_switch}
use libhpack.HeaderTable.StaticTable.{static_entries, static_table}
use libhpack.HeaderTable.Table.{Table}
use libhpack.HeaderTable.Table.Marked.{is_within}
use libhpack.HeaderTable.Holds.{Holds, IsField, counted_size}
use libhpack.HeaderTable.Query
use libhpack.HeaderTable.Query.Find.{IsFieldReadable, delivered, get-Holds, get_elsewhere}
use libhpack.HeaderParser.{Context}
use libhpack.HeaderParser.Strings.{decode_at}
use libhpack.HeaderParser.Agreement.{IsSound, few_fields}
use libhpack.HeaderParser.Agreement.Newest.{IsIndexed, referenced-IsIndexed}
use libhpack.HeaderTable.Table.Shrink.{AreHeads}
use libhpack.HeaderParser.Representations.{
  with_rep, position_of, referenced, looked_up, indexed_at, parse_indexed,
}
use libhpack.HeaderParser.Representations.Indexed.{parse_indexed-dropped}

-- The position of the `n`-th newest field.
pub position_lem :
    (t : Table) (fs : List Field) (n : ℕ)
    → Holds t fs
    → 0 < n
    → n ≤ length fs
    → index_switch t.offsets (n % 2 ^ 16) ≡ (t.offsets.head + (length fs - n)) % 128
position_lem t fs n hold h0 hn =
    let few = few_fields hold in
    let m : n % 2 ^ 16 ≡ n = omega arith in
    unfold index_switch in
    rw m (omega (arith, bit_and_low 7 (t.offsets.tail + 2 ^ 16 + 128 - n), hold.offsets_tail))

-- A position where a set has nothing can be taken out of it.
remove-absent :
    (s : BitmapSet.BitmapSet) (i j : ℕ)
    → BitmapSet.exists s i ≡ false
    → BitmapSet.exists (BitmapSet.remove s i).1 j ≡ BitmapSet.exists s j
remove-absent s i j out =
    let (_, m) = exists-remove s i j in
    elim (Bool-cases (i == j)) [
      | inl same ↦
          let e : i ≡ j = ground arith in
          let out' = ap (λ x. BitmapSet.exists s x) e in ground arith
      | inr other ↦ ground arith
    ]

module _ (c : Context) (fs : List Field) (num : ℕ) (sound : IsSound c fs) (h0 : 0 < num)
    (hn : num ≤ length fs)
    (new : BitmapSet.exists c.reference_set (position_of c num) ≡ false) where
  not_pending : BitmapSet.exists c.ref_not_emitted (position_of c num) ≡ false
  not_pending = elim (Bool-cases (BitmapSet.exists c.ref_not_emitted (position_of c num))) [
    | inr out ↦ out
    | inl there ↦ let old = sound.pending (position_of c num) there in absurd (cc (old, new))
  ]

  place_is : position_of c num ≡ (c.table.offsets.head + (length fs - num)) % 128
  place_is = position_lem c.table fs num sound.holds h0 hn

  pending_kept :
      (i : ℕ)
      → BitmapSet.exists (referenced c num).ref_not_emitted i ≡ BitmapSet.exists c.ref_not_emitted i
  pending_kept i = remove-absent c.ref_not_emitted (position_of c num) i not_pending

  reference_grown :
      (i : ℕ)
      → BitmapSet.exists (referenced c num).reference_set i
        ≡ (BitmapSet.exists c.reference_set i || (position_of c num == i))
  reference_grown i =
      let (_, m) = exists-add c.reference_set (position_of c num) i in
      let below : position_of c num < 128 = omega (arith, place_is) in m ∙ ground arith

  live_place : is_within c.table.offsets.head (length fs) (position_of c num) ≡ true
  live_place =
      let few = few_fields sound.holds in
      let at_head = sound.holds.offsets_head_in in rw place_is (ground arith)

  referenced-IsSound : IsSound (referenced c num) fs
  referenced-IsSound = record {
    holds = sound.holds;
    members = λ i h. elim (Bool-cases (position_of c num == i)) [
      | inl same ↦ let e : i ≡ position_of c num = ground arith in rw e live_place
      | inr other ↦ let m = reference_grown i in sound.members i (ground arith)
    ];
    pending = λ i h.
        let m = reference_grown i in
        let n = pending_kept i in
        let there : BitmapSet.exists c.ref_not_emitted i ≡ true = cc in
        let old = sound.pending i there in ground arith;
  }

-- An index of a field that is not in the reference set, from 1 for the newest on, emits that field
-- and puts its position into the set: no other position changes, nor do the positions to be
-- emitted, nor the table, and the context stays sound. The field must stand where it can be read.
pub parse_indexed-referenced :
    (b : Buffer) (offset : ℕ) (c : Context) (field f : Field) (num con : ℕ) (fs : List Field)
    → decode_at b 7 offset ≡ done (ok, num, con)
    → IsSound c fs
    → 0 < num
    → num ≤ length fs
    → BitmapSet.exists c.reference_set (position_of c num) ≡ false
    → get_elem? fs (length fs - num) ≡ some f
    → (c.table.bytes.head ≡ 0)
      ⊎ IsFieldReadable c.table.bytes (c.table.offsets.buffer (position_of c num)) f
    → (c' : Context) × (parse_indexed b offset c field
        ≡ done (ok, c', delivered f false (with_rep field rep_indexed), con))
      × IsSound c' fs
      × (c'.table ≡ c.table)
      × ((i : ℕ)
          → (BitmapSet.exists c'.reference_set i
              ≡ (BitmapSet.exists c.reference_set i || (position_of c num == i)))
            × (BitmapSet.exists c'.ref_not_emitted i ≡ BitmapSet.exists c.ref_not_emitted i))
parse_indexed-referenced b offset c field f num con fs e sound h0 hn new is readable =
    let few = few_fields sound.holds in
    let low : num % 2 ^ 16 ≡ num = omega arith in
    let known : ltb (static_entries + c.table.num_headers) num ≡ false =
      ground (arith, sound.holds.num) in
    let found =
      get-Holds c.table fs num f false (with_rep field rep_indexed) false sound.holds h0 hn is
        (rw⁻¹ low readable) in
    (
      referenced c num,
      runs low known found,
      referenced-IsSound c fs num sound h0 hn new,
      refl,
      λ i. (reference_grown c fs num sound h0 hn new i, pending_kept c fs num sound h0 hn new i),
    )
  where
    runs :
        num % 2 ^ 16 ≡ num
        → ltb (static_entries + c.table.num_headers) num ≡ false
        → Query.get c.table num false (with_rep field rep_indexed) false
          ≡ done (ok, delivered f false (with_rep field rep_indexed), false)
        → parse_indexed b offset c field
          ≡ done (ok, referenced c num, delivered f false (with_rep field rep_indexed), con)
    runs low known found =
        unfold parse_indexed indexed_at looked_up in rw (e, known, new, low, found)

-- The macros give an index above 128 the position of the index that is 128 below it.
aliases :
    (c : Context) (num : ℕ)
    → 128 ≤ num
    → num < 2 ^ 16
    → position_of c num ≡ position_of c (num - 128)
aliases c num low high =
    unfold index_switch in
    omega (
      arith,
      bit_and_low 7 (c.table.offsets.tail + 2 ^ 16 + 128 - num % 2 ^ 16),
      bit_and_low 7 (c.table.offsets.tail + 2 ^ 16 + 128 - (num - 128) % 2 ^ 16),
    )

-- In a table with more than 67 fields, the index of an entry of the static table can be above 128.
-- Where the field whose index is 128 below it is in the reference set, that field leaves the set,
-- and nothing is emitted, whatever the entry is.
pub parse_indexed_aliased :
    (b : Buffer) (offset : ℕ) (c : Context) (f : Field) (num con : ℕ)
    → decode_at b 7 offset ≡ done (ok, num, con)
    → c.table.num_headers < 2 ^ 15
    → c.table.num_headers < num
    → num ≤ c.table.num_headers + static_entries
    → 128 < num
    → BitmapSet.exists c.reference_set (position_of c (num - 128)) ≡ true
    → (c' : Context) × (parse_indexed b offset c f ≡ done (ok, c', f, con))
      × (BitmapSet.exists c'.reference_set (position_of c (num - 128)) ≡ false)
      × (c'.table ≡ c.table)
parse_indexed_aliased b offset c f num con e small static known above there =
    let same = aliases c num (omega arith) (omega arith) in
    let (c', runs, m, _, t) =
      parse_indexed-dropped b offset c f num con (position_of c (num - 128)) e known
        (ap (λ x. BitmapSet.exists c.reference_set x) same ∙ there) in
    let hit : (position_of c num == position_of c (num - 128)) ≡ true = ground arith in
    (c', runs, m ∙ rw hit (ground arith), t)

-- What a lookup makes of the field and the entry `s` of the static table.
abbrev pub with_static : Field → Field → Field
with_static field s = record {
  flags = s.flags;
  name = Buffer.add_buffer field.name s.name;
  value = Buffer.add_buffer field.value s.value;
}

static_found :
    (t : Table) (num : ℕ) (field s : Field) (fs : List Field)
    → t.num_headers ≡ length fs
    → length fs < num
    → num ≤ length fs + static_entries
    → get_elem? static_table (num - (length fs + 1)) ≡ some s
    → Query.get t num false (with_rep field rep_indexed) false
      ≡ done (ok, with_static field s, true)
static_found t num field s fs n low high is =
    let (s', e, found) =
      (get_elsewhere t num false (with_rep field rep_indexed) false (omega arith)).0
        (omega arith) in
    same s' e found
  where
    same :
        (s' : Field)
        → get_elem? static_table (num - (t.num_headers + 1)) ≡ some s'
        → Query.get t num false (with_rep field rep_indexed) false
          ≡ done (ok, with_static field s', true)
        → Query.get t num false (with_rep field rep_indexed) false
          ≡ done (ok, with_static field s, true)
    same s' e found =
        let there : get_elem? static_table (num - (t.num_headers + 1)) ≡ some s = rw n is in
        let one : s' ≡ s = cc in found ∙ ap (λ x. done (ok, with_static field x, true)) one

-- An index of an entry of the static table that has no alias in the reference set emits the entry,
-- and adds it to the table, behind the fields that the maximum leaves room for. The context stays
-- sound, the position of the new field joins the reference set, those of the evicted fields leave
-- it and leave what is pending, and every other position stays as it was. The entry must fit the
-- maximum, and the records of the table must stand where they can be read.
pub parse_indexed-static :
    (b : Buffer) (offset : ℕ) (c : Context) (field s : Field) (num con : ℕ) (fs : List Field)
    → let f : Field = record {
      flags = s.flags;
      name = Buffer.add_buffer field.name s.name;
      value = Buffer.add_buffer field.value s.value;
    } in
      decode_at b 7 offset ≡ done (ok, num, con)
      → IsSound c fs
      → length fs < num
      → num ≤ length fs + static_entries
      → BitmapSet.exists c.reference_set (position_of c num) ≡ false
      → get_elem? static_table (num - (length fs + 1)) ≡ some s
      → IsField (with_static field s)
      → counted_size (with_static field s) ≤ c.table.max_data
      → AreHeads c.table.bytes.head fs
      → (c' : Context) × (parse_indexed b offset c field ≡ done (ok, c', with_static field s, con))
        × IsIndexed c c' fs (with_static field s)
parse_indexed-static b offset c field s num con fs e sound low high new is hf small heads =
    let few = few_fields sound.holds in
    let same : num % 2 ^ 16 ≡ num = omega arith in
    let known : ltb (static_entries + c.table.num_headers) num ≡ false =
      ground (arith, sound.holds.num) in
    let found = static_found c.table num field s fs sound.holds.num low high is in
    let (c', added, indexed) =
      referenced-IsIndexed c fs (with_static field s) sound hf small heads in
    (
      referenced c' 1,
      unfold parse_indexed indexed_at looked_up in rw (e, known, new, same, found, added),
      indexed,
    )
