-- ===== src/HeaderParser/Representations/Sizes.antt =====
-- How much of a block a context update consumes.
use libhpack.Common.{ℕ, ◌∙◌, ◌+◌, ◌%◌, ◌^◌, ◌≤◌, ◌<◌, ◌≡◌, arith, length, All, ◌==◌}
use libhpack.Common.{ap, Bool-cases, inl, inr}
use libhpack.Common.Ret.{ok}
use libhpack.Common.Run.{done}
use libhpack.Buffer.{Buffer}
use libhpack.Integer.Decode.{IsByte}
use libhpack.HeaderTable.Table.{is_ok}
use libhpack.HeaderParser.{Context}
use libhpack.HeaderParser.Strings.{peek, decode_at}
use libhpack.HeaderParser.Bounds.{decode_at_bounds, bind-done, ok_of}
use libhpack.HeaderTable.Update
use libhpack.HeaderParser.Representations.{apply_max, new_max, parse_context_update}

apply_max_con :
    (c : Context) (num con : ℕ) {c' : Context} {k : ℕ}
    → apply_max c num con ≡ done (ok, c', k)
    → k ≡ con
unfolding apply_max
apply_max_con c num con e =
    let ((r, t, set), e1, f1) =
      bind-done (Update.set_max c.table (num % 2 ^ 16) (record { entry0 = 0; entry1 = 0 }) 0) _ e in
    elim (Bool-cases (is_ok r)) [
      | inl fine ↦ cc (rw fine at f1)
      | inr bad ↦ absurd (cc (rw bad at f1))
    ]

new_max_bounds :
    (b : Buffer) (offset : ℕ) (c : Context) {c' : Context} {k : ℕ}
    → All IsByte b.bytes
    → length b.bytes < 2 ^ 31
    → offset < length b.bytes
    → new_max b offset c ≡ done (ok, c', k)
    → (1 ≤ k) × (offset + k ≤ length b.bytes)
unfolding new_max
new_max_bounds b offset c {c'} {k} hb small hn e =
    let ((r, num, con), e1, f1) = bind-done (decode_at b 4 offset) _ e in
    elim (Bool-cases (is_ok r)) [
      | inr bad ↦ absurd (cc (rw bad at f1))
      | inl fine ↦
          let is : decode_at b 4 offset ≡ done (ok, num, con) =
            e1 ∙ ap (λ x. done (x, num, con)) (ok_of r fine) in
          let (_, h1, _, _, inside) =
            decode_at_bounds b 4 offset (omega arith) hb small (omega arith) is in
          let size : k ≡ con = apply_max_con c num con (rw fine at f1) in
          (omega arith, omega (arith, inside hn))
    ]

-- A context update that was parsed has consumed one octet at least, and none behind the block.
pub parse_context_update_bounds :
    (b : Buffer) (offset : ℕ) (c : Context) {c' : Context} {k : ℕ}
    → All IsByte b.bytes
    → length b.bytes < 2 ^ 31
    → offset < length b.bytes
    → parse_context_update b offset c ≡ done (ok, c', k)
    → (1 ≤ k) × (offset + k ≤ length b.bytes)
unfolding parse_context_update
parse_context_update_bounds b offset c {c'} {k} hb small hn e =
    let (first, e1, f1) = bind-done (peek b offset) _ e in
    elim (Bool-cases (first == 0x30)) [
      | inl clears ↦ let one : 1 ≡ k = cc (rw clears at f1) in omega arith
      | inr sizes ↦ new_max_bounds b offset c hb small hn (rw sizes at f1)
    ]
