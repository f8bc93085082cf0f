-- ===== src/HeaderParser/Representations/Resized.antt =====
-- `parse_context_update`: what it does to the fields of the table and to both sets.
use libhpack.Common.{ℕ, ◌+◌, ◌-◌, ◌%◌, ◌^◌, ◌≤◌, ◌<◌, ◌≡◌, ◌∙◌, refl, ap, arith}
use libhpack.Common.{List, [], length, true, false, not, ltb, ◌==◌, ◌&&◌, if◌then◌else◌}
use libhpack.Common.Ret.{Ret, ok, error, is_ok}
use libhpack.Common.Run.{Run, done, ◌>>=◌}
use libhpack.Buffer.{Buffer}
use libhpack.BitmapSet
use libhpack.BitmapSet.Algebra.{exists-clear}
use libhpack.HeaderField.{Field}
use libhpack.HeaderTable.Table.{Table}
use libhpack.HeaderTable.Table.Shrink.{AreHeads, shrunk, shrunk_shorter}
use libhpack.HeaderTable.Table.Marked.{is_within, within_kept}
use libhpack.HeaderTable.Holds.{Holds}
use libhpack.HeaderTable.Update
use libhpack.HeaderTable.Update.Room.{marks, set_max-Holds}
use libhpack.HeaderParser.{Context, with_evictions, with_table, with_sets}
use libhpack.HeaderParser.Strings.{peek, decode_at}
use libhpack.HeaderParser.Agreement.{IsSound, gone, no_set, exists-evicted, few_fields}
use libhpack.HeaderParser.Representations.{new_max, apply_max, parse_context_update}

-- What a new maximum makes of a context.
pub record IsResized (c c' : Context) (fs : List Field) (max : ℕ) : Type 0 where
  pub sound : IsSound c' (shrunk max fs)
  pub max_is : c'.table.max_data ≡ max
  pub reference_is :
      (i : ℕ)
      → BitmapSet.exists c'.reference_set i ≡ (
          BitmapSet.exists c.reference_set i
          && not (is_within c.table.offsets.head (gone fs (shrunk max fs)) i))
  pub pending_is :
      (i : ℕ)
      → BitmapSet.exists c'.ref_not_emitted i ≡ (
          BitmapSet.exists c.ref_not_emitted i
          && not (is_within c.table.offsets.head (gone fs (shrunk max fs)) i))

module _ (c : Context) (fs : List Field) (max : ℕ) (sound : IsSound c fs) (t : Table)
    (hold : Holds t (shrunk max fs)) (max_is : t.max_data ≡ max)
    (head_is : t.offsets.head ≡ (c.table.offsets.head + gone fs (shrunk max fs)) % 128) where
  abbrev resized : Context
  resized = with_evictions c t (marks c.table fs (shrunk max fs) no_set)

  left_by :
      (s : BitmapSet.BitmapSet) (i : ℕ)
      → BitmapSet.exists (BitmapSet.relative_comp s (marks c.table fs (shrunk max fs) no_set)) i
        ≡ (BitmapSet.exists s i && not (is_within c.table.offsets.head (gone fs (shrunk max fs)) i))
  left_by s i = exists-evicted s c.table fs (shrunk max fs) no_set i sound.holds

  resized-IsResized : IsResized c resized fs max
  resized-IsResized = record {
    sound = record {
      holds = hold;
      members = λ i h.
          let m = left_by c.reference_set i in
          let there : BitmapSet.exists c.reference_set i ≡ true = ground arith in
          let stays : is_within c.table.offsets.head (gone fs (shrunk max fs)) i ≡ false =
            ground arith in
          let shorter = shrunk_shorter max fs in
          let size : length (shrunk max fs) ≡ length fs - gone fs (shrunk max fs) = omega arith in
          rw (size, head_is)
            (within_kept c.table.offsets.head (length fs) (gone fs (shrunk max fs)) i
              sound.holds.offsets_head_in (few_fields sound.holds) (omega arith)
              (sound.members i there) stays);
      pending = λ i h.
          let m = left_by c.reference_set i in
          let n = left_by c.ref_not_emitted i in
          let there : BitmapSet.exists c.ref_not_emitted i ≡ true = ground arith in
          let old = sound.pending i there in ground arith;
    };
    max_is = max_is;
    reference_is = λ i. left_by c.reference_set i;
    pending_is = λ i. left_by c.ref_not_emitted i;
  }

-- A context update to a maximum that is neither 0 nor above the default: the table keeps the newest
-- fields that fit it, the positions of the others leave both sets, nothing else changes in the sets,
-- and the context stays sound. The records of the table must stand where they can be read.
pub parse_context_update-IsResized :
    (b : Buffer) (offset first : ℕ) (c : Context) (num con : ℕ) (fs : List Field)
    → peek b offset ≡ done first
    → (first == 0x30) ≡ false
    → decode_at b 4 offset ≡ done (ok, num, con)
    → 0 < num
    → num ≤ 4096
    → IsSound c fs
    → AreHeads c.table.bytes.head fs
    → (c' : Context) × (parse_context_update b offset c ≡ done (ok, c', con))
      × IsResized c c' fs num
parse_context_update-IsResized b offset first c num con fs e other e1 low high sound heads =
    let same : num % 2 ^ 16 ≡ num = omega arith in
    let above : ltb 4096 num ≡ false = ground arith in
    let zero : (num == 0) ≡ false = ground arith in
    let (t, run, rest) = set_max-Holds c.table fs num no_set 0 sound.holds heads in
    let (hold, max_is, head_is) = rest high in
    (
      with_evictions c t (marks c.table fs (shrunk num fs) no_set),
      runs same t (run ∙ rw (above, zero) refl),
      resized-IsResized c fs num sound t (holds t zero hold) max_is (head_is low),
    )
  where
    holds :
        (t : Table)
        → (num == 0) ≡ false
        → Holds t (if num == 0 then [] else shrunk num fs)
        → Holds t (shrunk num fs)
    holds t zero h = rw zero at h

    runs :
        num % 2 ^ 16 ≡ num
        → (t : Table)
        → Update.set_max c.table num no_set 0
          ≡ done (ok, t, marks c.table fs (shrunk num fs) no_set)
        → parse_context_update b offset c
          ≡ done (ok, with_evictions c t (marks c.table fs (shrunk num fs) no_set), con)
    runs same t run =
        let applied : apply_max c num con
            ≡ done (ok, with_evictions c t (marks c.table fs (shrunk num fs) no_set), con) =
          unfold apply_max in
          ap
            (λ m. m >>= (λ x.
              if◌then◌else◌ {A = Run (Ret × Context × ℕ)} (is_ok x.0)
                (done (ok, with_evictions c x.1 x.2, con)) (done (error, with_table c x.1, 0))))
            (ap (λ x. Update.set_max c.table x no_set 0) same ∙ run) in
        unfold parse_context_update new_max in rw (e, other, e1, applied)

-- The context update with the octet 0x30 empties both sets, and leaves the table.
pub parse_context_update-empties :
    (b : Buffer) (offset : ℕ) (c : Context) (fs : List Field)
    → peek b offset ≡ done 0x30
    → IsSound c fs
    → (c' : Context) × (parse_context_update b offset c ≡ done (ok, c', 1))
      × IsSound c' fs
      × (c'.table ≡ c.table)
      × ((i : ℕ) → BitmapSet.exists c'.reference_set i ≡ false)
parse_context_update-empties b offset c fs e sound = (
  with_sets c (BitmapSet.clear c.reference_set) (BitmapSet.clear c.ref_not_emitted),
  unfold parse_context_update in rw e,
  record {
    holds = sound.holds;
    members = λ i h. absurd (cc (h, exists-clear c.reference_set i));
    pending = λ i h. absurd (cc (h, exists-clear c.ref_not_emitted i));
  },
  refl,
  λ i. exists-clear c.reference_set i,
)
