-- ===== src/HeaderTable/Table/Shrink.antt =====
-- The loop that evicts: which fields it leaves, and that its rounds are enough.
use libhpack.Common.{ℕ, zero, suc, ◌+◌, ◌-◌, ◌%◌, ◌≤◌, ◌<◌, ◌≡◌, ◌∙◌, arith, ◌⊎◌, inl, inr}
use libhpack.Common.{
  List, [], ◌∷◌, length, if◌then◌else◌, Bool, true, false, ltb, leb, Bool-cases, ◌==◌, some,
}
use libhpack.Common.Ret.{ok}
use libhpack.Common.Run.{done, stuck}
use libhpack.BitmapSet
use libhpack.BitmapSet.{BitmapSet}
use libhpack.HeaderField.{Field}
use libhpack.HeaderTable.DataRing
use libhpack.HeaderTable.DataRing.{data_size}
use libhpack.HeaderTable.DataRing.Read.{IsReadable}
use libhpack.HeaderTable.Info.{Info, info_size, of_bytes}
use libhpack.HeaderTable.Table.{Table, removed, evict, evict_while}
use libhpack.HeaderTable.Table.Evict.{evict-Holds}
use libhpack.HeaderTable.Holds.{Holds, counted_total, stored_size}

-- Where the record at the head can be read: it neither goes round the end of the array nor is cut
-- short by the head that the code subtracts.
abbrev pub IsHead : ℕ → Type 0
IsHead d =
    (d ≡ 0)
    ⊎ ((d + info_size ≤ data_size) × ((d + d + info_size ≤ data_size) ⊎ (data_size < d + d)))

abbrev pub AreHeads : ℕ → List Field → Type 0
AreHeads d [] = Unit {0}
AreHeads d (f ∷ fs) = IsHead d × AreHeads ((d + stored_size f) % data_size) fs

-- What is left of the fields when the oldest go until the others fit `room`.
abbrev pub shrunk : ℕ → List Field → List Field
shrunk room [] = []
shrunk room (f ∷ fs) = if leb (counted_total (f ∷ fs)) room then f ∷ fs else shrunk room fs

-- The set with the `n` positions from `o` on added to it.
abbrev pub marked : BitmapSet → ℕ → ℕ → BitmapSet
marked set o zero = set
marked set o (suc n) = marked (BitmapSet.add set o).1 ((o + 1) % 128) n

pub shrunk_shorter : (room : ℕ) (fs : List Field) → length (shrunk room fs) ≤ length fs
shrunk_shorter room [] = omega arith
shrunk_shorter room (f ∷ fs) = ground (arith, shrunk_shorter room fs)

pub shrunk_fits : (room : ℕ) (fs : List Field) → counted_total (shrunk room fs) ≤ room
shrunk_fits room [] = omega arith
shrunk_fits room (f ∷ fs) = ground (arith, shrunk_fits room fs)

head-IsReadable :
    (t : Table) (f : Field) (fs : List Field)
    → Holds t (f ∷ fs)
    → IsHead t.bytes.head
    → IsReadable t.bytes t.bytes.head info_size
head-IsReadable t f fs hold h = record {
  offset_in = hold.data_head_in;
  head_in = hold.data_head_in;
  size_in = omega arith;
  unbroken = h;
}

-- The loop evicts the oldest fields until the others fit, and no more: it comes to an end within
-- one round more than there are fields, succeeds, moves the head of the offsets on by
-- as many positions as it evicts, and marks those positions.
-- Its test must be one on the size that is used, and the records must stand where they can be read.
pub evict_while-Holds :
    (full : Table → Bool) (room most rounds : ℕ) (t : Table) (fs : List Field) (set : BitmapSet)
    (e : ℕ)
    → ((s : Table) → s.max_data ≡ most → full s ≡ ltb room s.used_data)
    → t.max_data ≡ most
    → length fs < rounds
    → Holds t fs
    → AreHeads t.bytes.head fs
    → (t' : Table) × (evict_while full rounds t set e
        ≡ done (ok, t', marked set t.offsets.head (length fs - length (shrunk room fs))))
      × Holds t' (shrunk room fs)
      × (t'.max_data ≡ most)
      × (t'.offsets.head ≡ (t.offsets.head + (length fs - length (shrunk room fs))) % 128)
unfolding evict_while
evict_while-Holds full room most zero t fs set e test same enough hold heads = absurd (omega arith)
evict_while-Holds full room most (suc rounds) t [] set e test same enough hold heads =
    let stop : full t ≡ false = test t same ∙ ground (arith, hold.used) in
    (t, rw stop, hold, same, omega (arith, hold.offsets_head_in))
evict_while-Holds full room most (suc rounds) t (f ∷ fs) set e test same enough hold (h, heads) =
    elim (Bool-cases (leb (counted_total (f ∷ fs)) room)) [
      | inl fits ↦
          let stop : full t ≡ false = test t same ∙ ground (arith, hold.used) in
          let none_out : suc (length fs) - suc (length fs) ≡ 0 = omega arith in
          (
            t,
            rw (stop, fits, none_out),
            rw fits hold,
            same,
            rw (fits, none_out) (omega (arith, hold.offsets_head_in)),
          )
      | inr over ↦
          let go : full t ≡ true = test t same ∙ ground (arith, hold.used) in
          let (t1, e1, hold1, same1, o1, d1) =
            evict-Holds t f fs e hold (head-IsReadable t f fs hold h) in
          let (t2, e2, hold2, same2, o2) =
            evict_while-Holds full room most rounds t1 fs (BitmapSet.add set t.offsets.head).1
              t.offsets.head test (same1 ∙ same) (omega arith) hold1 (rw d1 heads) in
          let one_more : suc (length fs) - length (shrunk room fs)
              ≡ suc (length fs - length (shrunk room fs)) =
            omega (arith, shrunk_shorter room fs) in
          (
            t2,
            rw (go, e1, e2, over, one_more, o1),
            rw over hold2,
            same2,
            rw (over, one_more) (omega (arith, o1, o2)),
          )
    ]

-- The loop never ends, whatever its rounds, on a table that has no field and is still too full for
-- its test: an eviction then succeeds and changes nothing.
pub evict_while_endless :
    (full : Table → Bool) (rounds : ℕ) (t : Table) (set : BitmapSet) (e : ℕ)
    → full t ≡ true
    → t.num_headers ≡ 0
    → evict_while full rounds t set e ≡ stuck
unfolding evict_while evict
evict_while_endless full zero t set e go empty = rw go
evict_while_endless full (suc rounds) t set e go empty =
    let n : (t.num_headers == 0) ≡ true = ground arith in
    rw (go, n) (evict_while_endless full rounds t (BitmapSet.add set e).1 e go empty)

-- A field without a byte counts for nothing when it is added, but an eviction of it takes its
-- overhead off what is used: the only field of a table that uses 0 bytes then leaves a table
-- without fields that is said to use 65504.
pub evict_underflow :
    (t : Table) (info : Info) (raw : List ℕ) (e : ℕ)
    → t.num_headers ≡ 1
    → t.used_data ≡ 0
    → t.offsets.buffer t.offsets.head ≡ t.bytes.head
    → DataRing.get t.bytes t.bytes.head [] info_size ≡ done (ok, raw)
    → of_bytes raw ≡ some info
    → info.name_length + info.value_length ≡ 0
    → (t' : Table) × (evict t e ≡ done (ok, t', t.offsets.head))
      × (t'.num_headers ≡ 0)
      × (t'.used_data ≡ 65504)
evict_underflow t info raw e one unused at_head read is_info empty =
    let n : (t.num_headers == 0) ≡ false = ground arith in
    let h : (t.bytes.head == t.bytes.head) ≡ true = ground arith in
    (
      removed t info,
      unfold evict in rw (n, at_head, h, read, is_info),
      unfold removed in omega arith,
      unfold removed in omega arith,
    )
