-- ===== src/HeaderParser/Representations/Final.antt =====
-- `final_reference_set_process`: the fields of the reference set that a block did not name.
use libhpack.Common.{ℕ, ◌+◌, ◌-◌, ◌%◌, ◌^◌, ◌<◌, ◌≡◌, ◌∙◌, sym, ap, arith, ◌⊎◌, some}
use libhpack.Common.{List, length, true, false, get_elem?, get_elem?_total}
use libhpack.Common.{bit_and_low}
use libhpack.Common.Ret.{ok}
use libhpack.Common.Run.{done}
use libhpack.BitmapSet
use libhpack.BitmapSet.{BitmapSet, Iterator}
use libhpack.BitmapSet.Member.{exists-remove}
use libhpack.BitmapSet.Algebra.{exists-clone}
use libhpack.HeaderField.{Field}
use libhpack.HeaderTable.OffsetsRing.{index_switch}
use libhpack.HeaderTable.Table.{Table}
use libhpack.HeaderTable.Table.Marked.{is_within}
use libhpack.HeaderTable.Holds.{Holds}
use libhpack.HeaderTable.Query
use libhpack.HeaderTable.Query.Find.{IsFieldReadable, delivered, get-Holds}
use libhpack.HeaderParser.{Context}
use libhpack.HeaderParser.Agreement.{IsSound, few_fields}
use libhpack.HeaderParser.Representations.{final_reference_set_process}
use libhpack.HeaderParser.Representations.Referenced.{position_lem}

-- Every field that the table holds stands where it can be read.
abbrev pub AreReadable : Table → List Field → Type 0
AreReadable t fs =
    (k : ℕ) (f : Field)
    → get_elem? fs k ≡ some f
    → (t.bytes.head ≡ 0) ⊎ IsFieldReadable t.bytes (t.offsets.buffer ((t.offsets.head + k) % 128)) f

-- The place among the fields, from the oldest on, of the one at position `i`.
abbrev pub place_of : Context → ℕ → ℕ
place_of c i = (i + 128 - c.table.offsets.head) % 128

-- The context once the field at position `i` is emitted.
abbrev pub emitted : Context → Iterator → ℕ → Context
emitted c it i = record {
  table = c.table;
  reference_set = c.reference_set;
  ref_not_emitted = (BitmapSet.remove c.ref_not_emitted i).1;
  iter_not_emitted = it;
  finished = c.finished;
}

-- The context once nothing is left: all references are pending again.
abbrev pub restarted : Context → Iterator → Context
restarted c it = record {
  table = c.table;
  reference_set = c.reference_set;
  ref_not_emitted = BitmapSet.clone c.ref_not_emitted c.reference_set;
  iter_not_emitted = BitmapSet.iter_reset it;
  finished = true;
}

emitted-IsSound :
    (c : Context) (it : Iterator) (i : ℕ) (fs : List Field)
    → IsSound c fs
    → IsSound (emitted c it i) fs
emitted-IsSound c it i fs sound = record {
  holds = sound.holds;
  members = sound.members;
  pending =
      λ j h. let (_, m) = exists-remove c.ref_not_emitted i j in sound.pending j (ground arith);
}

pub restarted-IsSound :
    (c : Context) (it : Iterator) (fs : List Field) → IsSound c fs → IsSound (restarted c it) fs
restarted-IsSound c it fs sound = record {
  holds = sound.holds;
  members = sound.members;
  pending = λ j h. cc (exists-clone c.ref_not_emitted c.reference_set j);
}

-- The positions and the HPACK indexes of the fields in a table.
module _ (t : Table) (fs : List Field) (i : ℕ) (hold : Holds t fs)
    (live : is_within t.offsets.head (length fs) i ≡ true) where
  abbrev k : ℕ
  k = (i + 128 - t.offsets.head) % 128

  abbrev n : ℕ
  n = length fs - k

  bounds : (i < 128) × (k < length fs) × ((t.offsets.head + k) % 128 ≡ i)
  bounds =
      let head_in = hold.offsets_head_in in
      let below : i < 128 = ground arith in
      let inside : (i + 128 - t.offsets.head) % 128 < length fs = ground arith in
      (below, inside, omega arith)

  index_is : index_switch t.offsets i ≡ n
  unfolding index_switch
  index_is =
      let (below, inside, back) = bounds in
      omega (
        arith,
        bit_and_low 7 (t.offsets.tail + 2 ^ 16 + 128 - i),
        hold.offsets_tail,
        few_fields hold,
        hold.offsets_head_in,
      )

  back_is : index_switch t.offsets (n % 2 ^ 16) ≡ i
  back_is =
      let (below, inside, back) = bounds in
      position_lem t fs (length fs - k) hold (omega arith) (omega arith)
      ∙ ap (λ x. (t.offsets.head + x) % 128)
          (let e : length fs - (length fs - k) ≡ k = omega arith in e)
      ∙ back

  get_at :
      (f out : Field)
      → get_elem? fs k ≡ some f
      → AreReadable t fs
      → Query.get t n false out false ≡ done (ok, delivered f false out, false)
  get_at f out e readable =
      let (below, inside, back) = bounds in
      let same : length fs - (length fs - k) ≡ k = omega arith in
      let few = few_fields hold in
      let low : n % 2 ^ 16 ≡ n = omega arith in
      let here : index_switch t.offsets n ≡ (t.offsets.head + k) % 128 =
        ap (λ x. index_switch t.offsets x) (sym low) ∙ back_is ∙ sym back in
      get-Holds t fs n f false out false hold (omega arith) (omega arith) (rw same e)
        (rw here (readable k f e))

-- A field is pending at position `i`, which the iterator comes to next: it is emitted, and is not
-- pending any more.
pub final_reference_set_process-emits :
    (shl_int : ℕ → ℕ) (c : Context) (out : Field) (fs : List Field) (it : Iterator) (i : ℕ)
    → IsSound c fs
    → AreReadable c.table fs
    → c.finished ≡ false
    → BitmapSet.next shl_int c.ref_not_emitted c.iter_not_emitted ≡ (it, some i)
    → BitmapSet.exists c.ref_not_emitted i ≡ true
    → (f : Field) × (get_elem? fs (place_of c i) ≡ some f)
      × (final_reference_set_process shl_int c out
          ≡ done (ok, emitted c it i, delivered f false out))
      × IsSound (emitted c it i) fs
final_reference_set_process-emits shl_int c out fs it i sound readable going found there =
    let live = sound.members i (sound.pending i there) in
    let (_, inside, _) = bounds c.table fs i sound.holds live in
    let (f, e) = get_elem?_total fs (place_of c i) (inside) in
    let index = index_is c.table fs i sound.holds live in
    let back = back_is c.table fs i sound.holds live in
    let got = get_at c.table fs i sound.holds live f out e readable in
    let next0 = ap (λ x. x.0) found in
    let next1 = ap (λ x. x.1) found in
    (
      f,
      e,
      unfold final_reference_set_process in simp (going, next0, next1, index, got, back),
      emitted-IsSound c it i fs sound,
    )
