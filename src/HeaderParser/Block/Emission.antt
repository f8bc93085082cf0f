-- ===== src/HeaderParser/Block/Emission.antt =====
-- The end of a block: the rounds that emit what is left of the reference set.
pub mod Pending
pub mod Rounds
use libhpack.Common.{
  ℕ, zero, suc, ◌+◌, ◌-◌, ◌%◌, ◌^◌, ◌≤◌, ◌<◌, ◌≡◌, ◌∙◌, refl, sym, ap, arith, some, none,
}
use libhpack.Common.{
  List, [], ◌∷◌, ◌++◌, length, true, false, not, get_elem?, All, Option, Option-cases,
}
use libhpack.Common.{◌==◌, ◌&&◌, if◌then◌else◌, Bool-cases, inl, inr, get_elem?-append}
use mathlib.Core.Path.{subst, ap₂}
use mathlib.Core.List.{append-nil, append_assoc}
use libhpack.Common.Ret.{Ret, ok, eof}
use libhpack.Common.Run.{Run, done, checked, ◌>>=◌}
use libhpack.Buffer
use libhpack.Buffer.{Buffer}
use libhpack.BitmapSet
use libhpack.BitmapSet.{BitmapSet, Iterator}
use libhpack.BitmapSet.Member.{exists-remove}
use libhpack.BitmapSet.Algebra.{exists-clone}
use libhpack.BitmapSet.Member.{exists-remove}
use libhpack.BitmapSet.Search.{IsLeast, first_from-IsLeast}
use libhpack.BitmapSet.Next.{position, after, IsNext, next-IsNext}
use libhpack.Huffman.{Entry}
use libhpack.HeaderField
use libhpack.HeaderField.{Field}
use libhpack.HeaderStore
use libhpack.HeaderTable.Holds.{IsField}
use libhpack.HeaderTable.Query.Find.{delivered}
use libhpack.HeaderParser.{Context}
use libhpack.HeaderParser.Strings.{peek}
use libhpack.HeaderParser.Agreement.{IsSound}
use libhpack.HeaderParser.Representations.{final_reference_set_process}
use libhpack.HeaderParser.Representations.Final.{
  AreReadable, emitted, restarted, restarted-IsSound, final_reference_set_process-emits,
}
use libhpack.HeaderParser.Block.Emission.Pending.{fields_at, fields_at-none, fields_at-least}
use libhpack.HeaderParser.Block.{field_at, field, all_loop}
use libhpack.HeaderParser.Block.Stored.{strings_of, strings_of-emit, bytes-add, all_loop-field}
use libhpack.HeaderParser.Block.Emission.Rounds.{
  IsEmission, IsFirst, IsEmission-last, IsEmission-step,
}

All-get_elem? :
    (fs : List Field) (k : ℕ) (f : Field) → All IsField fs → get_elem? fs k ≡ some f → IsField f
All-get_elem? [] k f h e = absurd (ground arith)
All-get_elem? (g ∷ fs) zero f (h, hs) e = let same : g ≡ f = cc in subst IsField same h
All-get_elem? (g ∷ fs) (suc k) f (h, hs) e = All-get_elem? fs k f hs e

still_pending :
    (s : BitmapSet) (i j : ℕ)
    → BitmapSet.exists (BitmapSet.remove s i).1 j ≡ true
    → BitmapSet.exists s j ≡ true
still_pending s i j there = elim (Bool-cases (BitmapSet.exists s j)) [
  | inl is ↦ is
  | inr out ↦ absurd (cc ((exists-remove s i j).1, out, there))
]

module _ (decode_table : ℕ → ℕ → Entry) (shl_int : ℕ → ℕ) where
  -- At the end of a block, the rounds emit the fields at the positions that are pending and that
  -- the iterator has before it, one by one in the order of the positions, and then come to an end:
  -- the store has their strings behind those it had, the table and the reference set are as they
  -- were, and all that is referenced is pending for the next block. It takes a round for each
  -- position at most, and one more. The fields must stand where they can be read, and the shifts of
  -- the iterator, in an `int`, must be powers of two below 31 bits: the iterator stands at such a
  -- bit, and behind each pending position too.
  pub emission :
      (rounds : ℕ) (b : Buffer) (c : Context) (f : Field) (stored fs : List Field) (consumed : ℕ)
      → length b.bytes < 2 ^ 31
      → consumed < 2 ^ 32
      → ((k : ℕ) → k < 31 → shl_int k ≡ 2 ^ k)
      → ((j : ℕ) → BitmapSet.exists c.ref_not_emitted j ≡ true → (j + 1) % 64 < 31)
      → IsSound c fs
      → AreReadable c.table fs
      → c.finished ≡ false
      → c.iter_not_emitted.bit_pos < 31
      → position c.iter_not_emitted ≤ 128
      → 128 - position c.iter_not_emitted < rounds
      → (c' : Context) × (stored' : List Field) × IsEmission decode_table shl_int b c f stored fs
          rounds consumed c' stored'
  emission zero b c f stored fs consumed hb hc shifts low sound readable going hp hq enough =
      absurd (omega arith)
  emission (suc rounds) b c f stored fs consumed hb hc shifts low sound readable going hp hq
        enough =
      let is =
        next-IsNext shl_int c.ref_not_emitted c.iter_not_emitted (shifts 0 (omega arith))
          (shifts c.iter_not_emitted.bit_pos hp) (omega arith) hq in
      let nx = BitmapSet.next shl_int c.ref_not_emitted c.iter_not_emitted in
      let p = position c.iter_not_emitted in
      let least : IsFirst c nx.1 = rw is.found (first_from-IsLeast (128 - p) c.ref_not_emitted p) in
      elim (Option-cases nx.1) [
        | inl none_found ↦ (
          restarted c nx.0,
          stored,
          IsEmission-last decode_table shl_int rounds b c f stored fs consumed nx.0 sound going
              (ap (λ o. (nx.0, o)) none_found) (subst (IsFirst c) none_found least),
        )
        | inr (i, e) ↦
            let first : IsFirst c (some i) = subst (IsFirst c) e least in
            let behind : position nx.0 ≡ i + 1 =
              is.moved ∙ ap (after 128) e ∙ (unfold after in refl) in
            let (g, at, run, sound') =
              final_reference_set_process-emits shl_int c (HeaderField.clean f).1 fs nx.0 i sound
                readable going (ap (λ o. (nx.0, o)) e) first.0 in
            let still_low : (j : ℕ)
                → BitmapSet.exists (BitmapSet.remove c.ref_not_emitted i).1 j ≡ true
                → (j + 1) % 64 < 31 =
              λ j there. low j (still_pending c.ref_not_emitted i j there) in
            let hg = All-get_elem? fs _ g sound.holds.fields at in
            let (c', stored', later) =
              emission rounds b (emitted c nx.0 i) (delivered g false (HeaderField.clean f).1)
                (HeaderStore.emit stored (delivered g false (HeaderField.clean f).1)).1 fs consumed
                hb hc shifts still_low sound' readable going
                (omega (arith, low i first.0, is.bit_in)) (omega (arith, first.2))
                (omega (arith, first.1)) in
            (
              c',
              stored',
              IsEmission-step decode_table shl_int rounds b c f g stored fs consumed nx.0 i hb hc hg
                  at first behind run later,
            )
      ]
