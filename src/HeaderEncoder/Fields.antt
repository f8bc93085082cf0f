-- ===== src/HeaderEncoder/Fields.antt =====
-- A literal that the encoder renders, read by the parser.
use libhpack.Common.{
  ℕ, ◌+◌, ◌^◌, ◌≤◌, ◌<◌, ◌≡◌, refl, ap, ◌∙◌, arith, Bool, true, false, List, [], ◌∷◌, ◌++◌, length,
  get_elem?,
}
use libhpack.Common.{length-append, get_elem?-append}
use libhpack.Common.Ret.{ok}
use libhpack.Common.Run.{done, checked}
use libhpack.Buffer
use libhpack.Buffer.{Buffer, Sized}
use libhpack.Huffman.{Entry}
use libhpack.Huffman.Encoder.{Code}
use libhpack.Huffman.Tables.{AreTables}
use libhpack.HeaderField.{Field, rep_wo_indexing}
use libhpack.HeaderParser.{Context}
use libhpack.HeaderParser.Strings.{peek, parse_string}
use libhpack.HeaderParser.Representations.{with_rep}
use libhpack.HeaderParser.Representations.New.{with_strings}
use libhpack.HeaderParser.Block.{unfinished, field}
use libhpack.HeaderParser.Block.Literal.{field_new}
use libhpack.HeaderEncoder.{render_literal}
use libhpack.HeaderEncoder.Strings.{IsRenderable, IsUsable, add_string_read}
use mathlib.Core.List.{append_assoc}
use mathlib.Core.Path.{subst}

-- A field that goes into the memory of `g`, with the strings of `f`.
unfoldable pub as_read : Bool → Field → Field → Field
unfolding Buffer.add Buffer.clean
as_read huffman f g =
    with_rep
      (with_strings g (Buffer.add (Buffer.clean g.name) f.name.bytes) huffman
        (Buffer.add (Buffer.clean g.value) f.value.bytes) huffman)
      rep_wo_indexing

peek_at :
    (b : Buffer) (pre : List ℕ) (x : ℕ) (suf : List ℕ)
    → b.bytes ≡ pre ++ (x ∷ suf)
    → peek b (length pre) ≡ done x
peek_at b pre x suf e = ap checked (
    ap (λ t. get_elem? (t ++ (0 ∷ [])) (length pre)) e
    ∙ ap (λ t. get_elem? t (length pre)) (append_assoc pre (x ∷ suf) (0 ∷ []))
    ∙ get_elem?-append pre x (suf ++ (0 ∷ [])))

module _ {codes : ℕ → Code} {decode_table : ℕ → ℕ → Entry} {read : ℕ → List Bool}
    (tables : AreTables codes decode_table read) (shl_int : ℕ → ℕ) where
  -- What `render_literal` puts out, and how the parser reads it from any block that goes on with it.
  pub render_literal_read :
      (huffman : Bool) (tmp : Sized) (f : Field) (output : Buffer)
      → IsUsable tmp
      → IsRenderable codes huffman f.name.bytes
      → IsRenderable codes huffman f.value.bytes
      → (tmp' : Sized) × (output' : Buffer) × (added : List ℕ) × (render_literal codes tmp f huffman
            false output
          ≡ done (ok, tmp', output'))
        × IsUsable tmp'
        × (output'.bytes ≡ output.bytes ++ added)
        × (1 ≤ length added)
        × (length added ≤ 255)
        × ((b : Buffer) (suf : List ℕ) (c : Context) (g : Field)
            → length b.bytes < 2 ^ 31
            → b.bytes ≡ output'.bytes ++ suf
            → field decode_table shl_int b (length output.bytes) c g
              ≡ done (ok, unfinished c, as_read huffman f g, length added))
  unfolding render_literal Buffer.add_char as_read
  render_literal_read huffman tmp f output usable hn hv =
      let o1 = Buffer.add_char output 0 in
      let (t2, o2, a1, e1, u1, s1, l1, p1) =
        add_string_read codes tables huffman tmp f.name o1 usable hn in
      let (t3, o3, a2, e2, u2, s2, l2, p2) =
        add_string_read codes tables huffman t2 f.value o2 u1 hv in
      (
        t3,
        o3,
        0 ∷ (a1 ++ a2),
        rw e1 e2,
        u2,
        all_added o2.bytes o3.bytes a1 a2 s1 s2,
        omega arith,
        omega (arith, l1, l2, length-append a1 a2),
        λ b suf c g small is.
            reads b o2 o3 a1 a2 suf c g s1 s2 small is
              (p1 b (a2 ++ suf) (Buffer.clean g.name) small
                (is ∙ ap (λ t. t ++ suf) s2 ∙ append_assoc o2.bytes a2 suf))
              (p2 b suf (Buffer.clean g.value) small is),
      )
    where
      all_added :
          (x y a1 a2 : List ℕ)
          → x ≡ (output.bytes ++ (0 ∷ [])) ++ a1
          → y ≡ x ++ a2
          → y ≡ output.bytes ++ (0 ∷ (a1 ++ a2))
      all_added x y a1 a2 s1 s2 =
          s2
          ∙ ap (λ t. t ++ a2) (s1 ∙ append_assoc output.bytes (0 ∷ []) a1)
          ∙ append_assoc output.bytes (0 ∷ a1) a2

      reads :
          (b o2 o3 : Buffer) (a1 a2 suf : List ℕ) (c : Context) (g : Field)
          → o2.bytes ≡ (output.bytes ++ (0 ∷ [])) ++ a1
          → o3.bytes ≡ o2.bytes ++ a2
          → length b.bytes < 2 ^ 31
          → b.bytes ≡ o3.bytes ++ suf
          → parse_string decode_table b (length (output.bytes ++ (0 ∷ []))) (Buffer.clean g.name)
            ≡ done (ok, Buffer.add (Buffer.clean g.name) f.name.bytes, huffman, length a1)
          → parse_string decode_table b (length o2.bytes) (Buffer.clean g.value)
            ≡ done (ok, Buffer.add (Buffer.clean g.value) f.value.bytes, huffman, length a2)
          → field decode_table shl_int b (length output.bytes) c g
            ≡ done (ok, unfinished c, as_read huffman f g, length (0 ∷ (a1 ++ a2)))
      reads b o2 o3 a1 a2 suf c g s1 s2 small is p1 p2 =
          let n = length output.bytes in
          let after1 : length (output.bytes ++ (0 ∷ [])) ≡ n + 1 =
            length-append output.bytes (0 ∷ []) in
          let after2 : length o2.bytes ≡ n + 1 + length a1 =
            omega (arith, ap length s1, length-append (output.bytes ++ (0 ∷ [])) a1, after1) in
          let sum : length (a1 ++ a2) ≡ length a1 + length a2 = length-append a1 a2 in
          let inside : n + 1 + length a1 + length a2 ≤ length b.bytes = omega (
            arith,
            ap length is,
            length-append o3.bytes suf,
            ap length s2,
            length-append o2.bytes a2,
            after2,
          ) in
          let octet : peek b n ≡ done 0 = peek_at b output.bytes 0 ((a1 ++ a2) ++ suf) (
            is
            ∙ ap (λ t. t ++ suf) (all_added o2.bytes o3.bytes a1 a2 s1 s2)
            ∙ append_assoc output.bytes (0 ∷ (a1 ++ a2)) suf) in
          field_new decode_table shl_int b n c g small inside octet
            (subst
              (λ k.
                parse_string decode_table b k (Buffer.clean g.name)
                ≡ done (ok, Buffer.add (Buffer.clean g.name) f.name.bytes, huffman, length a1))
              after1 p1)
            (subst
              (λ k.
                parse_string decode_table b k (Buffer.clean g.value)
                ≡ done (ok, Buffer.add (Buffer.clean g.value) f.value.bytes, huffman, length a2))
              after2 p2)
          ∙ ap (λ k. done (ok, unfinished c, as_read huffman f g, k)) (omega (arith, sum))

  -- A field that `render_literal` renders without indexing, behind any output and followed by any
  -- octets, `hpack_header_parser_field` reads back, if the tables for Huffman codes agree, `enc->tmp` has 32 bytes at least, the length
  -- of either string, or of its codes where it is coded, is below 127, and the octets around the field
  -- come to less than 2 ^ 31 with 255 for the field. Both return ok, the strings are those of the field,
  -- added to the emptied field of the call; its representation is that of a literal without indexing,
  -- the context only has `finished` unset, and what was put out is consumed.
  pub field-render_literal :
      (huffman : Bool) (tmp : Sized) (f : Field) (output : Buffer) (c : Context) (g : Field)
      (suf : List ℕ)
      → IsUsable tmp
      → IsRenderable codes huffman f.name.bytes
      → IsRenderable codes huffman f.value.bytes
      → length output.bytes + 255 + length suf < 2 ^ 31
      → (tmp' : Sized) × (output' : Buffer) × (added : List ℕ) × (render_literal codes tmp f huffman
            false output
          ≡ done (ok, tmp', output'))
        × (output'.bytes ≡ output.bytes ++ added)
        × (field decode_table shl_int
              (record { bytes = output'.bytes ++ suf; has_memory = true })
              (length output.bytes)
              c
              g
            ≡ done (ok, unfinished c, as_read huffman f g, length added))
  field-render_literal huffman tmp f output c g suf usable hn hv small =
      let (tmp', output', added, e, _, s, _, few, reads) =
        render_literal_read huffman tmp f output usable hn hv in
      (
        tmp',
        output',
        added,
        e,
        s,
        reads (record { bytes = output'.bytes ++ suf; has_memory = true }) suf c g
            (omega (
              arith,
              length-append output'.bytes suf,
              ap length s,
              length-append output.bytes added,
            ))
            refl,
      )
