-- ===== src/HeaderParser/Strings/Consumed.antt =====
-- How much of a block a string consumes.
use libhpack.Common.{
  ℕ, ◌∙◌, ◌+◌, ◌-◌, ◌%◌, ◌^◌, ◌≤◌, ◌<◌, ◌≡◌, arith, length, All, Bool, false, not, ltb, leb,
  if◌then◌else◌, bit_and, ◌==◌,
}
use libhpack.Common.{Bool-cases, inl, inr}
use libhpack.Common.Ret.{Ret, ok, error}
use libhpack.Common.Run.{Run, done}
use libhpack.Buffer.{Buffer}
use libhpack.Huffman
use libhpack.Huffman.{Entry}
use libhpack.Common.{ap, take, drop, true}
use libhpack.Integer.Decode.{IsByte}
use libhpack.HeaderTable.Table.{is_ok}
use libhpack.HeaderParser.Strings.{memory, peek, decode_at, copy_string, string_at, parse_string}
use libhpack.HeaderParser.Bounds.{decode_at_bounds, bind-done, ok_of}

module _ (decode_table : ℕ → ℕ → Entry) (b : Buffer) where
  -- What was copied lay in the memory.
  copy_string_fits :
      (n len : ℕ) (string : Buffer) (huffman : Bool) {out : Buffer}
      → copy_string decode_table b n len string huffman ≡ done (ok, out)
      → n + len ≤ length b.bytes + 1
  unfolding copy_string
  copy_string_fits n len string huffman e = elim (Bool-cases (leb (n + len) (length b.bytes + 1))) [
    | inl fits ↦ ground arith
    | inr over ↦
        let (r, read, _) =
          Huffman.decode decode_table (take len (drop n (memory b))) string
            (record { state = 0; accept = true }) in
        elim (Bool-cases huffman) [
          | inr plain ↦ absurd (cc (rw (plain, over) at e))
          | inl coded ↦ elim (Bool-cases (is_ok r)) [
            | inl fine ↦ absurd (cc (rw (coded, fine, over) at e))
            | inr bad ↦ absurd (cc (rw (coded, bad) at e))
          ]
        ]
  ]

  string_at_ok :
      (offset : ℕ) (string : Buffer) (huffman : Bool) (r : Ret) (len con : ℕ) {s : Buffer}
      {h : Bool} {c : ℕ}
      → string_at decode_table b offset string huffman r len con ≡ done (ok, s, h, c)
      → r ≡ ok
  unfolding string_at
  string_at_ok offset string huffman r len con e = elim (Bool-cases (is_ok r)) [
    | inl fine ↦ ok_of r fine
    | inr bad ↦ absurd (cc (rw bad at e))
  ]

  string_at_bounds :
      (offset : ℕ) (string : Buffer) (huffman : Bool) (r : Ret) (len con : ℕ) {s : Buffer}
      {h : Bool} {c : ℕ}
      → length b.bytes < 2 ^ 31
      → len < 2 ^ 32
      → 1 ≤ con
      → con ≤ 6
      → offset ≤ length b.bytes
      → string_at decode_table b offset string huffman r len con ≡ done (ok, s, h, c)
      → (c ≡ con + len) × (offset + c ≤ length b.bytes)
  unfolding string_at
  string_at_bounds offset string huffman r len con {s} {h} {c} small hl h1 h6 hn e =
      elim (Bool-cases (is_ok r)) [
        | inr bad ↦ absurd (cc (rw bad at e))
        | inl fine ↦
            elim (Bool-cases (ltb (length b.bytes) (((offset + con) % 2 ^ 32 + len) % 2 ^ 32))) [
              | inl long ↦ absurd (cc (rw (fine, long) at e))
              | inr within ↦
                  let ((r', out), e1, f1) =
                    bind-done
                      (copy_string decode_table b ((offset + con) % 2 ^ 32) len string huffman) _
                      (rw (fine, within) at e) in
                  let passed = ok_of r' (accepted r' out huffman _ f1) in
                  let fits =
                    copy_string_fits ((offset + con) % 2 ^ 32) len string huffman {out = out}
                      (e1 ∙ ap (λ x. done (x, out)) passed) in
                  let counted : ((offset + con) % 2 ^ 32 + len + 2 ^ 32 - offset) % 2 ^ 32 ≡ c =
                    count r' out huffman f1 in
                  finish fits within counted
            ]
      ]
    where
      accepted :
          (r' : Ret) (out : Buffer) (huffman : Bool) (n : ℕ) {s : Buffer} {h : Bool} {c : ℕ}
          → if◌then◌else◌ {A = Run (Ret × Buffer × Bool × ℕ)}
              (is_ok r')
              (done (ok, out, huffman, n))
              (done (error, out, huffman, 0))
            ≡ done (ok, s, h, c)
          → is_ok r' ≡ true
      accepted r' out huffman n e = elim (Bool-cases (is_ok r')) [
        | inl fine ↦ fine
        | inr bad ↦ absurd (cc (rw bad at e))
      ]

      count :
          (r' : Ret) (out : Buffer) (huffman : Bool) {n : ℕ} {s : Buffer} {h : Bool} {c : ℕ}
          → if◌then◌else◌ {A = Run (Ret × Buffer × Bool × ℕ)}
              (is_ok r')
              (done (ok, out, huffman, n))
              (done (error, out, huffman, 0))
            ≡ done (ok, s, h, c)
          → n ≡ c
      count r' out huffman e = elim (Bool-cases (is_ok r')) [
        | inl fine ↦ cc (rw fine at e)
        | inr bad ↦ absurd (cc (rw bad at e))
      ]

      finish :
          {c : ℕ}
          → (offset + con) % 2 ^ 32 + len ≤ length b.bytes + 1
          → ltb (length b.bytes) (((offset + con) % 2 ^ 32 + len) % 2 ^ 32) ≡ false
          → ((offset + con) % 2 ^ 32 + len + 2 ^ 32 - offset) % 2 ^ 32 ≡ c
          → (c ≡ con + len) × (offset + c ≤ length b.bytes)
      finish fits within counted = ground arith

  -- A string that was parsed has consumed one octet at least, and none behind the block: those of its
  -- length, and as many as the length says.
  pub parse_string_bounds :
      (offset : ℕ) (string : Buffer) {s : Buffer} {h : Bool} {c : ℕ}
      → All IsByte b.bytes
      → length b.bytes < 2 ^ 31
      → offset ≤ length b.bytes
      → parse_string decode_table b offset string ≡ done (ok, s, h, c)
      → (1 ≤ c) × (offset + c ≤ length b.bytes)
  unfolding parse_string
  parse_string_bounds offset string {s} {h} {c} hb small hn e =
      let (first, e1, f1) = bind-done (peek b offset) _ e in
      let ((r, len, con), e2, f2) = bind-done (decode_at b 7 offset) _ f1 in
      decoded first r len con e2 f2
    where
      decoded :
          (first : ℕ) (r : Ret) (len con : ℕ)
          → decode_at b 7 offset ≡ done (r, len, con)
          → string_at decode_table b offset string (not (bit_and first 128 == 0)) r len con
            ≡ done (ok, s, h, c)
          → (1 ≤ c) × (offset + c ≤ length b.bytes)
      decoded first r len con e2 f2 =
          let huffman = not (bit_and first 128 == 0) in
          let fine = string_at_ok offset string huffman r len con f2 in
          let at_ok : decode_at b 7 offset ≡ done (ok, len, con) = e2 ∙ rw fine in
          let (hl, h1, h6, _, _) = decode_at_bounds b 7 offset (omega arith) hb small hn at_ok in
          let (size, inside) =
            string_at_bounds offset string huffman r len con small hl h1 h6 hn f2 in
          (omega arith, inside)
