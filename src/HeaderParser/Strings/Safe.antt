-- ===== src/HeaderParser/Strings/Safe.antt =====
-- Where the read of a string leaves the memory.
use libhpack.Common.{
  ℕ, ◌+◌, ◌%◌, ◌^◌, ◌≤◌, ◌<◌, ◌≡◌, ◌≢◌, ◌⊎◌, refl, sym, ap, ◌∙◌, arith, length, All, Bool, true,
  false, not, ltb, leb, ◌==◌, bit_and,
}
use libhpack.Common.{Bool-cases, inl, inr, get_elem?_total, length-append, [], ◌∷◌}
use libhpack.Common.Ret.{Ret, ok, is_ok}
use libhpack.Common.Run.{Run, done, fault, checked, IsDone, if-IsDone, bind-IsDone}
use libhpack.Buffer.{Buffer}
use libhpack.Huffman
use libhpack.Huffman.{Entry, DecodeContext}
use libhpack.Common.{take, drop}
use libhpack.Integer.Decode.{IsByte}
use libhpack.HeaderParser.Strings.{peek, decode_at, copy_string, string_at, parse_string, memory}
use libhpack.HeaderParser.Bounds.{decode_at_bounds, decode_at_total, ok_of}

-- The length that is read at the offset takes the end of the string to 2 ^ 32 or above.
abbrev pub IsWrapped : Buffer → ℕ → Type 0
IsWrapped b offset =
    (len con : ℕ) × (decode_at b 7 offset ≡ done (ok, len, con)) × (2 ^ 32 ≤ offset + con + len)

done_not_fault : {A : Type 0} {a : A} {m : Run A} → m ≡ done a → m ≢ fault
done_not_fault e f = cc

-- The octets that the memory has of a string, as the decoder sees them.
abbrev pub decoded_from : (ℕ → ℕ → Entry) → Buffer → ℕ → ℕ → Buffer → Ret × Buffer × DecodeContext
decoded_from decode_table b n len string =
    Huffman.decode decode_table (take len (drop n (memory b))) string
      (record { state = 0; accept = true })

-- The string at the offset is coded, and the decoder refuses an octet that the memory has of it.
abbrev pub IsStopped : (ℕ → ℕ → Entry) → Buffer → ℕ → Buffer → Type 0
IsStopped decode_table b offset string =
    (first len con : ℕ) × (peek b offset ≡ done first)
    × (decode_at b 7 offset ≡ done (ok, len, con))
    × (not (bit_and first 128 == 0) ≡ true)
    × (is_ok (decoded_from decode_table b (offset + con) len string).0 ≡ false)

module _ (decode_table : ℕ → ℕ → Entry) (b : Buffer) where
  -- Unless the decoder stops, a string that is not in the memory is read from outside it.
  copy_string_outside :
      (n len : ℕ) (string : Buffer) (huffman : Bool)
      → length b.bytes + 1 < n + len
      → (huffman ≡ false) ⊎ (is_ok (decoded_from decode_table b n len string).0 ≡ true)
      → copy_string decode_table b n len string huffman ≡ fault
  unfolding copy_string
  copy_string_outside n len string huffman h (inl plain) =
      let over : leb (n + len) (length b.bytes + 1) ≡ false = ground arith in rw (plain, over) refl
  copy_string_outside n len string huffman h (inr fine) =
      let over : leb (n + len) (length b.bytes + 1) ≡ false = ground arith in
      elim (Bool-cases huffman) [
        | inl coded ↦ rw (coded, fine, over) refl
        | inr plain ↦ rw (plain, over) refl
      ]

  copy_string_inside :
      (n len : ℕ) (string : Buffer) (huffman : Bool)
      → n + len ≤ length b.bytes + 1
      → IsDone (copy_string decode_table b n len string huffman)
  unfolding copy_string
  copy_string_inside n len string huffman h =
      let within : leb (n + len) (length b.bytes + 1) ≡ true = ground arith in
      rw within (
        if-IsDone huffman
          (λ coded.
            if-IsDone (not (is_ok (decoded_from decode_table b n len string).0)) (λ bad. (_, refl))
              (λ fine. (_, refl)))
          (λ plain. (_, refl)))

  copy_string_stopped :
      (n len : ℕ) (string : Buffer) (huffman : Bool)
      → huffman ≡ true
      → is_ok (decoded_from decode_table b n len string).0 ≡ false
      → IsDone (copy_string decode_table b n len string huffman)
  unfolding copy_string
  copy_string_stopped n len string huffman coded bad = rw (coded, bad) (_, refl)

  string_at_outside :
      (offset : ℕ) (string : Buffer) (huffman : Bool) (len con : ℕ)
      → length b.bytes < 2 ^ 31
      → offset + con ≤ length b.bytes + 1
      → len < 2 ^ 32
      → 2 ^ 32 ≤ offset + con + len
      → (huffman ≡ false) ⊎ (is_ok (decoded_from decode_table b (offset + con) len string).0 ≡ true)
      → string_at decode_table b offset string huffman ok len con ≡ fault
  unfolding string_at
  string_at_outside offset string huffman len con small within hl wraps reads =
      let n : (offset + con) % 2 ^ 32 ≡ offset + con = omega arith in
      let passes : ltb (length b.bytes) ((offset + con + len) % 2 ^ 32) ≡ false = ground arith in
      rw (n, passes, copy_string_outside (offset + con) len string huffman (omega arith) reads) refl

  string_at_stopped :
      (offset : ℕ) (string : Buffer) (huffman : Bool) (len con : ℕ)
      → length b.bytes < 2 ^ 31
      → offset + con ≤ length b.bytes + 1
      → huffman ≡ true
      → is_ok (decoded_from decode_table b (offset + con) len string).0 ≡ false
      → IsDone (string_at decode_table b offset string huffman ok len con)
  unfolding string_at
  string_at_stopped offset string huffman len con small within coded bad =
      let n : (offset + con) % 2 ^ 32 ≡ offset + con = omega arith in
      rw n (
        if-IsDone (ltb (length b.bytes) ((offset + con + len) % 2 ^ 32)) (λ long. (_, refl))
          (λ passes.
            bind-IsDone (copy_string_stopped (offset + con) len string huffman coded bad)
              (λ o e. if-IsDone (is_ok o.0) (λ good. (_, refl)) (λ failed. (_, refl)))))

  string_at_inside :
      (offset : ℕ) (string : Buffer) (huffman : Bool) (r : Ret) (len con : ℕ)
      → (r ≡ ok → offset + con + len < 2 ^ 32)
      → IsDone (string_at decode_table b offset string huffman r len con)
  unfolding string_at
  string_at_inside offset string huffman r len con fits =
      if-IsDone (not (is_ok r)) (λ bad. (_, refl))
        (λ fine.
          let sum = fits (ok_of r (unnot (is_ok r) fine)) in
          let n : (offset + con) % 2 ^ 32 ≡ offset + con = omega arith in
          rw n (
            if-IsDone (ltb (length b.bytes) ((offset + con + len) % 2 ^ 32)) (λ long. (_, refl))
              (λ within.
                bind-IsDone (copy_string_inside (offset + con) len string huffman (ground arith))
                  (λ o e. if-IsDone (is_ok o.0) (λ good. (_, refl)) (λ failed. (_, refl))))))
    where
      unnot : (c : Bool) → not c ≡ false → c ≡ true
      unnot true e = refl
      unnot false e = cc

  -- In a block of octets shorter than 2 ^ 31, `parse_string` at an offset not behind the end either
  -- reads outside the memory or returns. It does the first exactly where the length that is given
  -- takes the end of the string to 2 ^ 32 or above, so that the test against the length of the block
  -- passes, and the string is not coded or the decoder takes all the octets that the memory has of it.
  pub parse_string-IsWrapped :
      (offset : ℕ) (string : Buffer)
      → All IsByte b.bytes
      → length b.bytes < 2 ^ 31
      → offset ≤ length b.bytes
      → (IsWrapped b offset
          × (¬ IsStopped decode_table b offset string)
          × (parse_string decode_table b offset string ≡ fault))
        ⊎ (((¬ IsWrapped b offset) ⊎ IsStopped decode_table b offset string)
            × IsDone (parse_string decode_table b offset string))
  unfolding parse_string
  parse_string-IsWrapped offset string hb small hn =
      let (first, e1) =
        get_elem?_total (memory b) offset (omega (arith, length-append b.bytes (0 ∷ []))) in
      let ((r, len, con), e2) = decode_at_total b 7 offset (omega arith) hb small hn in
      elim (Bool-cases (is_ok r)) [
        | inr bad ↦ inr (
          inl (λ (l, c, e, _). absurd (ret_differs bad (sym e2 ∙ e))),
          rw (ap checked e1, e2)
              (string_at_inside offset string (not (bit_and first 128 == 0)) r len con
                (λ is. absurd (ok_differs bad is))),
        )
        | inl fine ↦
            sized first len con (ap checked e1) (e2 ∙ ap (λ x. done (x, len, con)) (ok_of r fine))
      ]
    where
      ok_differs : {r : Ret} → is_ok r ≡ false → r ≢ ok
      ok_differs bad e = cc

      ret_differs :
          {r : Ret} {v k l c : ℕ}
          → is_ok r ≡ false
          → ◌≢◌ {A = Run (Ret × ℕ × ℕ)} (done (r, v, k)) (done (ok, l, c))
      ret_differs bad e = cc

      sized :
          (first len con : ℕ)
          → peek b offset ≡ done first
          → decode_at b 7 offset ≡ done (ok, len, con)
          → (IsWrapped b offset
              × (¬ IsStopped decode_table b offset string)
              × (parse_string decode_table b offset string ≡ fault))
            ⊎ (((¬ IsWrapped b offset) ⊎ IsStopped decode_table b offset string)
                × IsDone (parse_string decode_table b offset string))
      sized first len con e1 is =
          let huffman = not (bit_and first 128 == 0) in
          let (hl, h1, h6, inside, _) = decode_at_bounds b 7 offset (omega arith) hb small hn is in
          let fault_at = string_at_outside offset string huffman len con small inside hl in
          elim (Bool-cases (ltb (offset + con + len) (2 ^ 32))) [
            | inl fits ↦ inr (
              inl (λ (l, c, e, wraps). absurd (not_both l c fits wraps (sym is ∙ e))),
              rw (e1, is) (string_at_inside offset string huffman ok len con (λ _. ground arith)),
            )
            | inr wraps ↦ elim (Bool-cases huffman) [
              | inr plain ↦ inl (
                (len, con, is, ground arith),
                λ (f, l, c, ep, ed, coded, bad). absurd (not_coded f plain coded (sym e1 ∙ ep)),
                rw (e1, is) (fault_at (ground arith) (inl plain)),
              )
              | inl coded ↦
                  elim (Bool-cases
                    (is_ok (decoded_from decode_table b (offset + con) len string).0)) [
                      | inl fine ↦ inl (
                        (len, con, is, ground arith),
                        λ (f, l, c, ep, ed, _, bad).
                            absurd (not_stopped l c fine bad (sym is ∙ ed)),
                        rw (e1, is) (fault_at (ground arith) (inr fine)),
                      )
                      | inr bad ↦ inr (
                        inr (first, len, con, e1, is, coded, bad),
                        rw (e1, is)
                            (string_at_stopped offset string huffman len con small inside coded
                              bad),
                      )
                    ]
            ]
          ]
        where
          not_both :
              (l c : ℕ)
              → ltb (offset + con + len) (2 ^ 32) ≡ true
              → 2 ^ 32 ≤ offset + c + l
              → ◌≢◌ {A = Run (Ret × ℕ × ℕ)} (done (ok, len, con)) (done (ok, l, c))
          not_both l c fits wraps e = let e1 : len ≡ l = cc in let e2 : con ≡ c = cc in ground arith

          not_coded :
              (f : ℕ)
              → not (bit_and first 128 == 0) ≡ false
              → not (bit_and f 128 == 0) ≡ true
              → ◌≢◌ {A = Run ℕ} (done first) (done f)
          not_coded f plain coded e = let same : first ≡ f = cc in cc

          not_stopped :
              (l c : ℕ)
              → is_ok (decoded_from decode_table b (offset + con) len string).0 ≡ true
              → is_ok (decoded_from decode_table b (offset + c) l string).0 ≡ false
              → ◌≢◌ {A = Run (Ret × ℕ × ℕ)} (done (ok, len, con)) (done (ok, l, c))
          not_stopped l c fine bad e = let e1 : len ≡ l = cc in let e2 : con ≡ c = cc in cc
