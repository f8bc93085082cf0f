-- ===== src/HeaderParser/Representations/Pair.antt =====
-- How much of a block a literal consumes.
use libhpack.Common.{
  ℕ, ◌∙◌, ◌+◌, ◌-◌, ◌%◌, ◌^◌, ◌≤◌, ◌<◌, ◌≡◌, arith, length, All, true, false, if◌then◌else◌,
  bit_and, ◌==◌,
}
use libhpack.Common.{ap, Bool-cases, inl, inr}
use libhpack.Common.Ret.{Ret, ok}
use libhpack.Common.Run.{Run, done}
use libhpack.Buffer.{Buffer}
use libhpack.Huffman.{Entry}
use libhpack.HeaderField.{Field}
use libhpack.Integer.Decode.{IsByte}
use libhpack.HeaderTable.Table.{Table, is_ok}
use libhpack.HeaderTable.Query
use libhpack.HeaderParser.Strings.{peek, decode_at, parse_string}
use libhpack.HeaderParser.Strings.Consumed.{parse_string_bounds}
use libhpack.HeaderParser.Bounds.{decode_at_bounds, bind-done, ok_of}
use libhpack.HeaderParser.Representations.{
  indexed_name, literal_name, pair_name, pair_value, parse_header_pair,
}

-- A failed status is not `ok`.
not_ok : {r : Ret} → is_ok r ≡ false → r ≡ ok → ⊥
not_ok bad e = cc

module _ (decode_table : ℕ → ℕ → Entry) (b : Buffer) (hb : All IsByte b.bytes)
    (small : length b.bytes < 2 ^ 31) where
  literal_name_bounds :
      (offset : ℕ) (f : Field) {f' : Field} {n : ℕ}
      → offset < length b.bytes
      → literal_name decode_table b offset f ≡ done (ok, f', n)
      → (offset < n) × (n ≤ length b.bytes)
  unfolding literal_name
  literal_name_bounds offset f {f'} {n} hn e =
      let start = (offset + 1) % 2 ^ 32 in
      let ((r, name, huffman, con), e1, f1) =
        bind-done (parse_string decode_table b start f.name) _ e in
      elim (Bool-cases (is_ok r)) [
        | inr bad ↦ absurd (not_ok bad (cc (rw bad at f1)))
        | inl fine ↦
            let is : parse_string decode_table b start f.name ≡ done (ok, name, huffman, con) =
              e1 ∙ ap (λ x. done (x, name, huffman, con)) (ok_of r fine) in
            let (h1, inside) =
              parse_string_bounds decode_table b start f.name hb small (omega arith) is in
            let size : (offset + 1 + con) % 2 ^ 32 ≡ n = cc (rw fine at f1) in omega arith
      ]

  indexed_name_bounds :
      (offset prefix : ℕ) (t : Table) (f : Field) {f' : Field} {n : ℕ}
      → prefix ≤ 8
      → offset < length b.bytes
      → indexed_name decode_table b offset t f prefix ≡ done (ok, f', n)
      → (offset < n) × (n ≤ length b.bytes)
  unfolding indexed_name
  indexed_name_bounds offset prefix t f {f'} {n} hp hn e =
      let ((r, index, con), e1, f1) = bind-done (decode_at b prefix offset) _ e in
      elim (Bool-cases (is_ok r)) [
        | inr bad ↦ absurd (cc (rw bad at f1))
        | inl fine ↦
            let is : decode_at b prefix offset ≡ done (ok, index, con) =
              e1 ∙ ap (λ x. done (x, index, con)) (ok_of r fine) in
            let (_, h1, _, _, inside) =
              decode_at_bounds b prefix offset hp hb small (omega arith) is in
            let ((r', g, is_static), e2, f2) =
              bind-done (Query.get t (index % 2 ^ 16) true f false) _ (rw fine at f1) in
            let size : (offset + con) % 2 ^ 32 ≡ n = cc f2 in omega (arith, inside hn)
      ]

  pair_value_bounds :
      (offset : ℕ) (f : Field) (n : ℕ) {f' : Field} {k : ℕ}
      → offset < n
      → n ≤ length b.bytes
      → pair_value decode_table b offset f n ≡ done (ok, f', k)
      → (1 ≤ k) × (offset + k ≤ length b.bytes)
  unfolding pair_value
  pair_value_bounds offset f n {f'} {k} h0 hn e =
      let ((r, value, huffman, con), e1, f1) =
        bind-done (parse_string decode_table b n f.value) _ e in
      elim (Bool-cases (is_ok r)) [
        | inr bad ↦ absurd (not_ok bad (cc (rw bad at f1)))
        | inl fine ↦
            let is : parse_string decode_table b n f.value ≡ done (ok, value, huffman, con) =
              e1 ∙ ap (λ x. done (x, value, huffman, con)) (ok_of r fine) in
            let (h1, inside) = parse_string_bounds decode_table b n f.value hb small hn is in
            let size : (n + con + 2 ^ 32 - offset) % 2 ^ 32 ≡ k = cc (rw fine at f1) in omega arith
      ]

  pair_name_bounds :
      (offset : ℕ) (t : Table) (f : Field) {f' : Field} {n : ℕ}
      → offset < length b.bytes
      → pair_name decode_table b offset t f ≡ done (ok, f', n)
      → (offset < n) × (n ≤ length b.bytes)
  unfolding pair_name
  pair_name_bounds offset t f {f'} {n} hn e =
      let (first, _, f1) = bind-done (peek b offset) _ e in named first f1
    where
      named :
          (first : ℕ)
          → if◌then◌else◌ {A = Run (Ret × Field × ℕ)}
              (bit_and first 0x0f == 0)
              (literal_name decode_table b offset f)
              (indexed_name decode_table b offset t f (if bit_and first 0xc0 == 0 then 4 else 6))
            ≡ done (ok, f', n)
          → (offset < n) × (n ≤ length b.bytes)
      named first e' = elim (Bool-cases (bit_and first 0x0f == 0)) [
        | inl new ↦ literal_name_bounds offset f hn (rw new at e')
        | inr known ↦
            indexed_name_bounds offset (if bit_and first 0xc0 == 0 then 4 else 6) t f (ground arith)
              hn (rw known at e')
      ]

  -- A literal that was parsed has consumed one octet at least, and none behind the block.
  pub parse_header_pair_bounds :
      (offset : ℕ) (t : Table) (f : Field) {f' : Field} {k : ℕ}
      → offset < length b.bytes
      → parse_header_pair decode_table b offset t f ≡ done (ok, f', k)
      → (1 ≤ k) × (offset + k ≤ length b.bytes)
  unfolding parse_header_pair
  parse_header_pair_bounds offset t f {f'} {k} hn e =
      let ((r, g, n), e1, f1) = bind-done (pair_name decode_table b offset t f) _ e in
      elim (Bool-cases (is_ok r)) [
        | inr bad ↦ absurd (not_ok bad (cc (rw bad at f1)))
        | inl fine ↦
            let is : pair_name decode_table b offset t f ≡ done (ok, g, n) =
              e1 ∙ ap (λ x. done (x, g, n)) (ok_of r fine) in
            let (h0, h1) = pair_name_bounds offset t f hn is in
            pair_value_bounds offset g n h0 h1 (rw fine at f1)
      ]
