-- ===== src/Huffman/Pieces.antt =====
-- Decoding Huffman codes that come in pieces.
use libhpack.Common.{ℕ, ◌/◌, ◌≡◌, bit_and, List, [], ◌∷◌, ◌++◌}
use libhpack.Common.{ap, false, not, Bool-cases, inl, inr, if◌then◌else◌}
use libhpack.Common.Ret.{Ret, ok, is_ok}
use libhpack.Buffer.{Buffer}
use libhpack.Huffman.{Entry, DecodeContext, half_byte, decode}

module _ (decode_table : ℕ → ℕ → Entry) where
  -- The step of the loop, on what its two halves and the rest give.
  stepped :
      (r1 r2 : Ret) (o1 o2 : Buffer) (c1 c2 : DecodeContext)
      (rest rest' goal : Ret × Buffer × DecodeContext) {out' : Buffer} {context' : DecodeContext}
      → (if◌then◌else◌ {A = Ret × Buffer × DecodeContext}
          (not (is_ok r1))
          (r1, o1, c1)
          (if◌then◌else◌ {A = Ret × Buffer × DecodeContext} (not (is_ok r2)) (r2, o2, c2) rest))
        ≡ (ok, out', context')
      → (rest ≡ (ok, out', context') → rest' ≡ goal)
      → if◌then◌else◌ {A = Ret × Buffer × DecodeContext}
          (not (is_ok r1))
          (r1, o1, c1)
          (if◌then◌else◌ {A = Ret × Buffer × DecodeContext} (not (is_ok r2)) (r2, o2, c2) rest')
        ≡ goal
  stepped r1 r2 o1 o2 c1 c2 rest rest' goal e next = elim (Bool-cases (is_ok r1)) [
    | inr bad ↦ absurd (failed bad (ap (λ p. p.0) (rw bad at e)))
    | inl fine ↦ elim (Bool-cases (is_ok r2)) [
      | inr bad ↦ absurd (failed bad (ap (λ p. p.0) (rw (fine, bad) at e)))
      | inl fine2 ↦ rw (fine, fine2) (next (rw (fine, fine2) at e))
    ]
  ]
    where
      failed : {r : Ret} → is_ok r ≡ false → r ≡ ok → ⊥
      failed bad e' = cc

  -- Octets that are decoded in two calls, the second from the context that the first has left, give
  -- what one call on all of them gives, if the first call succeeds.
  pub decode-append :
      (xs ys : List ℕ) (out : Buffer) (context : DecodeContext) {out' : Buffer}
      {context' : DecodeContext}
      → decode decode_table xs out context ≡ (ok, out', context')
      → decode decode_table (xs ++ ys) out context ≡ decode decode_table ys out' context'
  unfolding decode
  decode-append [] ys out context {out'} {context'} e = cc
  decode-append (x ∷ xs) ys out context e =
      let (r1, o1, c1) = half_byte decode_table (x / 16) out context in
      let (r2, o2, c2) = half_byte decode_table (bit_and x 15) o1 c1 in
      stepped r1 r2 o1 o2 c1 c2 (decode decode_table xs o2 c2)
        (decode decode_table (xs ++ ys) o2 c2) _ e (decode-append xs ys o2 c2)
