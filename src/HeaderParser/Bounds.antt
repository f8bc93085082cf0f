-- ===== src/HeaderParser/Bounds.antt =====
-- How much of a block the reads of it consume.
use libhpack.Common.{
  ℕ, zero, suc, ◌+◌, ◌-◌, ◌%◌, ◌^◌, ◌≤◌, ◌<◌, ◌≡◌, refl, arith, max, sym, ◌∙◌, List, [], ◌∷◌, ◌++◌,
  length, drop, All,
}
use libhpack.Common.{some, none, Option, true}
use libhpack.Common.Ret.{
  Ret, no_sys, nomem, deny, error, ok, eof, eof_have_data, not_found, file_not_found, eagain,
  ok_and_sent,
}
use libhpack.Common.Run.{Run, done, fault, stuck, ◌>>=◌, checked}
use libhpack.Buffer.{Buffer}
use libhpack.Integer
use libhpack.Common.{ltb, Bool-cases, Option-cases, inl, inr, min, ap, take}
use libhpack.Integer.{uint_max, vlq_max_len_integer}
use libhpack.Integer.Vlq.{number}
use libhpack.Integer.Decode.{IsByte, answer, decode-answer, decode_bounds}
use libhpack.HeaderTable.Table.{is_ok}
use libhpack.HeaderParser.Strings.{decode_at}

-- The memory from `n` on, while `n` is not beyond the contents.
memory_from :
    (xs : List ℕ) (n : ℕ)
    → All IsByte xs
    → n ≤ length xs
    → (first : ℕ) × (rest : List ℕ) × (drop n (xs ++ (0 ∷ [])) ≡ first ∷ rest)
      × (first < 256)
      × All IsByte rest
      × (length rest ≡ length xs - n)
memory_from [] zero hs hn = (0, [], refl, omega arith, tt, refl)
memory_from [] (suc n) hs hn = absurd (omega arith)
memory_from (x ∷ xs) zero (h, hs) hn =
    (x, xs ++ (0 ∷ []), refl, h, all_bytes xs hs, omega (arith, one_more xs))
  where
    all_bytes : (ys : List ℕ) → All IsByte ys → All IsByte (ys ++ (0 ∷ []))
    all_bytes [] k = (omega arith, tt)
    all_bytes (y ∷ ys) (k, ks) = (k, all_bytes ys ks)

    one_more : (ys : List ℕ) → length (ys ++ (0 ∷ [])) ≡ suc (length ys)
    one_more [] = refl
    one_more (y ∷ ys) = omega (arith, one_more ys)
memory_from (x ∷ xs) (suc n) (h, hs) hn =
    let (first, rest, is, hf, hr, size) = memory_from xs n hs (omega arith) in
    (first, rest, is, hf, hr, omega arith)

checked-some : {A : Type 0} (o : Option A) {a : A} → checked o ≡ done a → o ≡ some a
checked-some none e = cc
checked-some (some b) e = cc

-- A length of 0 is as one of 1.
decode_left :
    (prefix first : ℕ) (rest : List ℕ) (left : ℕ) {v k : ℕ}
    → prefix ≤ 8
    → first < 256
    → All IsByte rest
    → left ≤ length rest + 1
    → Integer.decode prefix (first ∷ rest) left 0 ≡ some (ok, v, k)
    → (v < 2 ^ 32) × (1 ≤ k) × (k ≤ 6) × (k ≤ max left 1)
decode_left prefix first rest zero hp hf hr hl e =
    let same = decode-answer prefix first 0 0 rest hp hf hr hl in
    let one = decode-answer prefix first 1 0 rest hp hf hr (omega arith) in
    decode_bounds prefix first 1 0 rest hp hf hr (omega arith) (omega arith) (one ∙ sym same ∙ e)
decode_left prefix first rest (suc left) hp hf hr hl e =
    let (a, b, c, d) = decode_bounds prefix first (suc left) 0 rest hp hf hr (omega arith) hl e in
    (a, b, c, omega arith)

-- A number is read from one octet at least, and, where it starts within the block, from none
-- behind it.
pub decode_at_bounds :
    (b : Buffer) (prefix n : ℕ) {v k : ℕ}
    → prefix ≤ 8
    → All IsByte b.bytes
    → length b.bytes < 2 ^ 31
    → n ≤ length b.bytes
    → decode_at b prefix n ≡ done (ok, v, k)
    → (v < 2 ^ 32)
      × (1 ≤ k)
      × (k ≤ 6)
      × (n + k ≤ length b.bytes + 1)
      × (n < length b.bytes → n + k ≤ length b.bytes)
decode_at_bounds b prefix n {v} {k} hp hb small hn e =
    let (first, rest, is, hf, hr, size) = memory_from b.bytes n hb hn in
    let left : ℕ = (length b.bytes + 2 ^ 32 - n) % 2 ^ 32 % 256 in
    let e1 : checked (Integer.decode prefix (first ∷ rest) left 0) ≡ done (ok, v, k) = rw is at e in
    let (hv, h1, h6, hl) =
      decode_left prefix first rest left hp hf hr (omega (arith, size)) (checked-some _ e1) in
    (hv, h1, h6, omega arith, λ within. omega arith)

-- The decoder has an answer for any octets.
answer_total :
    (n : ℕ) (bs : List ℕ) (left p consumed : ℕ)
    → (o : Ret × ℕ × ℕ) × (answer n bs left p consumed ≡ some o)
unfolding answer
answer_total n bs left p consumed = elim (Bool-cases (ltb p (2 ^ n - 1))) [
  | inl short ↦ ((ok, p, 1), rw short refl)
  | inr long ↦ elim (Option-cases (number (take left bs))) [
    | inl none_read ↦ ((error, p, consumed), rw (long, none_read) refl)
    | inr ((v, k), is) ↦ elim (Bool-cases (ltb uint_max (p + v))) [
      | inl big ↦ ((error, p, consumed), rw (long, is, big) refl)
      | inr fits ↦ ((ok, p + v, 1 + k), rw (long, is, fits) refl)
    ]
  ]
]

-- The read of a number within the contents, or of the '\0' behind them, stays in the memory.
pub decode_at_total :
    (b : Buffer) (prefix n : ℕ)
    → prefix ≤ 8
    → All IsByte b.bytes
    → length b.bytes < 2 ^ 31
    → n ≤ length b.bytes
    → (o : Ret × ℕ × ℕ) × (decode_at b prefix n ≡ done o)
decode_at_total b prefix n hp hb small hn =
    let (first, rest, is, hf, hr, size) = memory_from b.bytes n hb hn in
    let left : ℕ = (length b.bytes + 2 ^ 32 - n) % 2 ^ 32 % 256 in
    let (o, e) =
      answer_total prefix rest (min left vlq_max_len_integer - 1) (first % 2 ^ prefix) 0 in
    (
      o,
      rw is
          (ap checked (decode-answer prefix first left 0 rest hp hf hr (omega (arith, size)) ∙ e)),
    )

-- What a run that is done has gone through.
pub bind-done {ℓ κ} :
    {A : Type ℓ} {B : Type κ} (m : Run A) (f : A → Run B) {b : B}
    → (m >>= f) ≡ done b
    → (a : A) × (m ≡ done a) × (f a ≡ done b)
bind-done (done a) f e = (a, refl, e)
bind-done fault f e = cc
bind-done stuck f e = cc

pub ok_of : (r : Ret) → is_ok r ≡ true → r ≡ ok
ok_of ok e = refl
ok_of no_sys e = cc
ok_of nomem e = cc
ok_of deny e = cc
ok_of error e = cc
ok_of eof e = cc
ok_of eof_have_data e = cc
ok_of not_found e = cc
ok_of file_not_found e = cc
ok_of eagain e = cc
ok_of ok_and_sent e = cc
