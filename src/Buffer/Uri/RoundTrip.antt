-- ===== src/Buffer/Uri/RoundTrip.antt =====
-- A text that is escaped comes back when it is unescaped.
use libhpack.Common.{ℕ, ◌+◌, ◌-◌, ◌*◌, ◌/◌, ◌^◌, ◌<◌, ◌≡◌, ◌∙◌, refl, sym, ap, arith, bit_and}
use libhpack.Common.{List, [], ◌∷◌, ◌++◌, length, All, Bool, true, false, ◌==◌, drop}
use libhpack.Common.{
  Bool-cases, inl, inr, bit_and_high, bit_and_low, same_below, holds_below, take-append,
}
use libhpack.Buffer
use libhpack.Buffer.{Buffer, Sized, ensure_addlen, ensure_addlen_least}
use libhpack.Common.Run.{done}
use libhpack.Common.{◌%◌, zero, suc, ◌≤◌, ltb, lt→ltb, take_all}
use libhpack.Buffer.Uri.{
  utf8_size, is_char_escaped, hex_char, escaped_char, escape_loop, count_loop, escape_with_table,
  is_escape, unescaped_char, unescape_loop, unescape_uri,
}

-- A character of ASCII other than NUL.
abbrev pub IsPlain : ℕ → Type 0
IsPlain x = (0 < x) × (x < 128)

utf8_size-IsPlain : (x : ℕ) (xs : List ℕ) → IsPlain x → utf8_size (x ∷ xs) ≡ 1
unfolding utf8_size
utf8_size-IsPlain x xs (low, high) = ground (
  arith,
  bit_and_high 5 x (omega arith) (omega arith),
  bit_and_high 4 x (omega arith) (omega arith),
  bit_and_high 3 x (omega arith) (omega arith),
)

escape_loop-IsPlain :
    (table : List ℕ) (x : ℕ) (xs : List ℕ)
    → IsPlain x
    → escape_loop table 0 (x ∷ xs) ≡ escaped_char table x ++ escape_loop table 0 xs
escape_loop-IsPlain table x xs plain = unfold escape_loop in rw (utf8_size-IsPlain x xs plain) refl

value_back :
    (x : ℕ) → IsPlain x → unescaped_char (hex_char (x / 2 ^ 4)) (hex_char (bit_and x 0xf)) ≡ x
value_back x (low, high) =
    let tabled =
      same_below 127
        (λ k. unescaped_char (hex_char ((k + 1) / 2 ^ 4)) (hex_char (bit_and (k + 1) 0xf)))
        (λ k. k + 1) (unfold holds_below in refl) (x - 1) (omega arith) in
    let same : x - 1 + 1 ≡ x = omega arith in rw same at tabled

is_nil : (xs : List ℕ) → length xs ≡ 0 → xs ≡ []
is_nil [] e = refl
is_nil (x ∷ xs) e = absurd (omega arith)

-- What is written is longer by two characters for each that is counted.
length-escape_loop :
    (table : List ℕ) (inside : ℕ) (xs : List ℕ)
    → length (escape_loop table inside xs) ≡ length xs + 2 * count_loop table inside xs
unfolding escape_loop count_loop
length-escape_loop table zero [] = refl
length-escape_loop table (suc inside) [] = refl
length-escape_loop table (suc inside) (x ∷ xs) = omega (arith, length-escape_loop table inside xs)
length-escape_loop table zero (x ∷ xs) =
    let n = utf8_size (x ∷ xs) in
    let rest = length-escape_loop table (n - 1) xs in
    elim (Bool-cases (ltb 1 n)) [
      | inl several ↦ rw several (omega (arith, rest))
      | inr one ↦ elim (Bool-cases (is_char_escaped table x)) [
        | inl escaped ↦ rw (one, escaped) (omega (arith, rest))
        | inr plainly ↦ rw (one, plainly) (omega (arith, rest))
      ]
    ]

count_below : (table : List ℕ) (inside : ℕ) (xs : List ℕ) → count_loop table inside xs ≤ length xs
unfolding count_loop
count_below table zero [] = omega arith
count_below table (suc inside) [] = omega arith
count_below table (suc inside) (x ∷ xs) = omega (arith, count_below table inside xs)
count_below table zero (x ∷ xs) =
    let n = utf8_size (x ∷ xs) in
    let rest = count_below table (n - 1) xs in
    elim (Bool-cases (ltb 1 n)) [
      | inl several ↦ rw several (omega (arith, rest))
      | inr one ↦ elim (Bool-cases (is_char_escaped table x)) [
        | inl escaped ↦ rw (one, escaped) (omega (arith, rest))
        | inr plainly ↦ rw (one, plainly) (omega (arith, rest))
      ]
    ]

-- Escaping a text into a buffer without contents, where the sizes stay below 2 ^ 31.
escaped_bytes :
    (b : Sized) (src : Buffer) (table : List ℕ)
    → b.buffer.bytes ≡ []
    → 4 * length src.bytes + 1 < 2 ^ 31
    → (out : Sized) × (escape_with_table b src table ≡ done out)
      × (out.buffer.bytes ≡ escape_loop table 0 src.bytes)
unfolding escape_with_table Buffer.is_empty
escaped_bytes b src table empty small = elim (Bool-cases (length src.bytes == 0)) [
  | inl nothing ↦
      let none_in : src.bytes ≡ [] = is_nil src.bytes (ground arith) in
      (b, rw nothing refl, empty ∙ (unfold escape_loop in ap (escape_loop table 0) (sym none_in)))
  | inr full ↦
      let k = count_loop table 0 src.bytes in
      let text = escape_loop table 0 src.bytes in
      let few = count_below table 0 src.bytes in
      let longer = length-escape_loop table 0 src.bytes in
      let addlen = (length src.bytes + k * 3) % 2 ^ 32 in
      let size = ensure_addlen b.size 0 addlen in
      let least = ensure_addlen_least b.size 0 addlen (omega (arith, few)) in
      let fits : ltb (length text) size ≡ true =
        lt→ltb (length text) size (omega (arith, least, longer, few)) in
      let whole : (0 + (length src.bytes + k * 2)) % 2 ^ 32 ≡ length text =
        omega (arith, longer, few) in
      (
        record { buffer = record { bytes = text; has_memory = true }; size = size },
        rw (full, empty, fits, whole, take_all text) refl,
        refl,
      )
]

module _ (isxdigit : ℕ → Bool) (digits : (d : ℕ) → d < 16 → isxdigit (hex_char d) ≡ true) where
  unescape-plain :
      (x : ℕ) (xs : List ℕ)
      → 0 < x
      → is_escape isxdigit (x ∷ xs) ≡ false
      → unescape_loop isxdigit 0 (x ∷ xs)
        ≡ (x ∷ (unescape_loop isxdigit 0 xs).0, (unescape_loop isxdigit 0 xs).1)
  unescape-plain x xs low other =
      let some_char : (x == 0) ≡ false = ground arith in
      unfold unescape_loop in rw (other, some_char)

  unescape-sequence :
      (h l : ℕ) (xs : List ℕ)
      → is_escape isxdigit (37 ∷ h ∷ l ∷ xs) ≡ true
      → unescape_loop isxdigit 0 (37 ∷ h ∷ l ∷ xs) ≡ (
        unescaped_char h l ∷ (unescape_loop isxdigit 0 xs).0,
        (unescape_loop isxdigit 0 xs).1 + 1,
      )
  unescape-sequence h l xs found = unfold unescape_loop in rw found

  -- The loops on a text without NUL: what comes back, and how much longer the escaped text is.
  loops_back :
      (table xs : List ℕ)
      → is_char_escaped table 37 ≡ true
      → All IsPlain xs
      → (n : ℕ) × (unescape_loop isxdigit 0 (escape_loop table 0 xs) ≡ (xs, n))
        × (length (escape_loop table 0 xs) ≡ length xs + 2 * n)
  loops_back table [] percent hs =
      (0, unfold escape_loop unescape_loop in refl, unfold escape_loop in refl)
  loops_back table (x ∷ xs) percent (plain, hs) =
      let (n, same, size) = loops_back table xs percent hs in
      let first = escape_loop-IsPlain table x xs plain in
      elim (Bool-cases (is_char_escaped table x)) [
        | inl special ↦ (
          n + 1,
          ap (unescape_loop isxdigit 0) (sequence first special)
              ∙ unescape-sequence (hex_char (x / 2 ^ 4)) (hex_char (bit_and x 0xf))
                  (escape_loop table 0 xs) (found x (escape_loop table 0 xs) plain)
              ∙ rw (same, value_back x plain) refl,
          ap length (sequence first special) ∙ omega (arith, size),
        )
        | inr plainly ↦ (
          n,
          ap (unescape_loop isxdigit 0) (single first plainly)
              ∙ unescape-plain x (escape_loop table 0 xs) plain.0
                  (not_found x (escape_loop table 0 xs) plainly percent)
              ∙ rw same refl,
          ap length (single first plainly) ∙ omega (arith, size),
        )
      ]
    where
      sequence :
          escape_loop table 0 (x ∷ xs) ≡ escaped_char table x ++ escape_loop table 0 xs
          → is_char_escaped table x ≡ true
          → escape_loop table 0 (x ∷ xs)
            ≡ 37 ∷ hex_char (x / 2 ^ 4) ∷ hex_char (bit_and x 0xf) ∷ escape_loop table 0 xs
      sequence first special = first ∙ rw special refl

      single :
          escape_loop table 0 (x ∷ xs) ≡ escaped_char table x ++ escape_loop table 0 xs
          → is_char_escaped table x ≡ false
          → escape_loop table 0 (x ∷ xs) ≡ x ∷ escape_loop table 0 xs
      single first plainly = first ∙ rw plainly refl

      found :
          (x : ℕ) (rest : List ℕ)
          → IsPlain x
          → is_escape isxdigit (37 ∷ hex_char (x / 2 ^ 4) ∷ hex_char (bit_and x 0xf) ∷ rest) ≡ true
      found x rest (low, high) =
          unfold is_escape in
          rw (
            digits (x / 2 ^ 4) (omega arith),
            digits (bit_and x 0xf) (omega (arith, bit_and_low 4 x)),
          )

      not_found :
          (x : ℕ) (rest : List ℕ)
          → is_char_escaped table x ≡ false
          → is_char_escaped table 37 ≡ true
          → is_escape isxdigit (x ∷ rest) ≡ false
      not_found x rest plainly percent = elim (Bool-cases (x == 37)) [
        | inl same ↦
            let e : x ≡ 37 = ground arith in
            absurd (cc (ap (is_char_escaped table) e, plainly, percent))
        | inr other ↦ unfold is_escape in rw other
      ]

  unescape_back :
      (e : Buffer) (xs : List ℕ) (n : ℕ)
      → unescape_loop isxdigit 0 e.bytes ≡ (xs, n)
      → length e.bytes ≡ length xs + 2 * n
      → (unescape_uri isxdigit e).bytes ≡ xs
  unescape_back e xs n back size = elim (Bool-cases (length e.bytes == 0)) [
    | inl empty ↦
        unfold unescape_uri Buffer.is_empty in
        rw empty (is_nil e.bytes (ground arith) ∙ sym (is_nil xs (ground arith)))
    | inr full ↦
        let len : length e.bytes - 2 * n ≡ length xs = omega arith in
        let kept = take-append xs (0 ∷ drop (length xs + 1) e.bytes) in
        unfold unescape_uri Buffer.is_empty in
        rw (full, ap (λ x. x.0) back, ap (λ x. x.1) back, len) kept
  ]

  -- What is escaped with a table that has `%` in it, into a buffer without contents, comes back
  -- when it is unescaped, if it has only characters of ASCII and no NUL, and four times its length
  -- and one stay below 2 ^ 31; nothing is written outside the memory.
  pub unescape_uri-escape_with_table :
      (b : Sized) (src : Buffer) (table : List ℕ)
      → b.buffer.bytes ≡ []
      → is_char_escaped table 37 ≡ true
      → All IsPlain src.bytes
      → 4 * length src.bytes + 1 < 2 ^ 31
      → (out : Sized) × (escape_with_table b src table ≡ done out)
        × ((unescape_uri isxdigit out.buffer).bytes ≡ src.bytes)
  unescape_uri-escape_with_table b src table empty percent hs small =
      let (n, same, longer) = loops_back table src.bytes percent hs in
      let (out, e, made) = escaped_bytes b src table empty small in
      (
        out,
        e,
        unescape_back out.buffer src.bytes n (ap (unescape_loop isxdigit 0) made ∙ same)
            (ap length made ∙ longer),
      )
