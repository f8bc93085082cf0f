-- ===== src/HeaderEncoder/Blocks.antt =====
-- A whole block that the encoder renders, read by the parser.
use libhpack.Common.{
  ℕ, suc, ◌+◌, ◌-◌, ◌*◌, ◌^◌, ◌≤◌, ◌<◌, ◌≡◌, refl, sym, ap, ◌∙◌, arith, Bool, true, false, List, [],
  ◌∷◌, ◌++◌, length, All, some, none,
}
use libhpack.Common.{length-append}
use libhpack.Common.Ret.{ok}
use libhpack.Common.Run.{done}
use libhpack.Buffer
use libhpack.Buffer.{Buffer, Sized}
use libhpack.BitmapSet
use libhpack.BitmapSet.{Iterator}
use libhpack.Huffman.{Entry}
use libhpack.Huffman.Encoder.{Code}
use libhpack.Huffman.Tables.{AreTables}
use libhpack.HeaderField
use libhpack.HeaderField.{Field}
use libhpack.HeaderStore
use libhpack.HeaderParser.{Context}
use libhpack.HeaderParser.Block.{unfinished, all_loop, all}
use libhpack.HeaderParser.Block.Stored.{
  strings_of, strings_of-emit, bytes-add, all_loop-field, all_loop_end,
}
use libhpack.HeaderEncoder.{HeaderEncoder, render_loop, render}
use libhpack.HeaderEncoder.Strings.{IsRenderable, IsUsable}
use libhpack.HeaderEncoder.Fields.{as_read, render_literal_read}
use mathlib.Core.List.{append_assoc, append-nil}
use mathlib.Core.Path.{ap₂}

-- A field that is not empty, with strings of octets whose codes are short.
pub record IsRendered (codes : ℕ → Code) (f : Field) : Type 0 where
  pub some_string : HeaderField.is_empty f ≡ false
  pub name_fits : IsRenderable codes true f.name.bytes
  pub value_fits : IsRenderable codes true f.value.bytes

module _ {codes : ℕ → Code} {decode_table : ℕ → ℕ → Entry} {read : ℕ → List Bool}
    (tables : AreTables codes decode_table read) (shl_int : ℕ → ℕ) where
  read_strings : (f g : Field) → strings_of (as_read true f g ∷ []) ≡ strings_of (f ∷ [])
  unfolding as_read Buffer.clean
  read_strings f g =
      ap₂ (λ x y. (x, y) ∷ []) (bytes-add (Buffer.clean g.name) f.name.bytes)
        (bytes-add (Buffer.clean g.value) f.value.bytes)

  read_full :
      (f g : Field)
      → HeaderField.is_empty f ≡ false
      → HeaderField.is_empty (as_read true f g) ≡ false
  unfolding as_read Buffer.clean HeaderField.is_empty Buffer.is_empty
  read_full f g h =
      ap₂
        (λ x y. HeaderField.is_empty (record {
          flags = f.flags;
          name = record { bytes = x; has_memory = true };
          value = record { bytes = y; has_memory = true };
        }))
        (bytes-add (Buffer.clean g.name) f.name.bytes)
        (bytes-add (Buffer.clean g.value) f.value.bytes)
      ∙ h

  render_loop_read :
      (fs : List Field) (tmp : Sized) (output : Buffer)
      → IsUsable tmp
      → All (IsRendered codes) fs
      → (tmp' : Sized) × (output' : Buffer) × (added : List ℕ) × (render_loop codes fs tmp output
          ≡ done (ok, tmp', output'))
        × (output'.bytes ≡ output.bytes ++ added)
        × (length fs ≤ length added)
        × (length added ≤ 255 * length fs)
        × ((b : Buffer) (suf : List ℕ) (c : Context) (g : Field) (store : List Field)
              (consumed rounds : ℕ)
            → length b.bytes < 2 ^ 31
            → b.bytes ≡ output'.bytes ++ suf
            → consumed + length added < 2 ^ 32
            → (c' : Context) × (g' : Field) × (store' : List Field) × (all_loop decode_table shl_int
                  (length fs + rounds)
                  b
                  (length output.bytes)
                  c
                  g
                  (some store)
                  consumed
                ≡ all_loop decode_table shl_int rounds b
                    (length output'.bytes)
                    c'
                    g'
                    (some store')
                    (consumed + length added))
              × (unfinished c' ≡ unfinished c)
              × (strings_of store' ≡ strings_of store ++ strings_of fs))
  unfolding render_loop
  render_loop_read [] tmp output usable h = (
    tmp,
    output,
    [],
    refl,
    sym (append-nil output.bytes),
    omega arith,
    omega arith,
    λ b suf c g store consumed rounds small is room. (
      c,
      g,
      store,
      ap₂ (λ n k. all_loop decode_table shl_int n b (length output.bytes) c g (some store) k)
          (omega arith) (omega arith),
      refl,
      sym (append-nil (strings_of store)),
    ),
  )
  render_loop_read (f ∷ fs) tmp output usable (h, hs) =
      let (t1, o1, a1, e1, u1, s1, l1, m1, p1) =
        render_literal_read tables shl_int true tmp f output usable h.name_fits h.value_fits in
      let (t2, o2, a2, e2, s2, l2, m2, p2) = render_loop_read fs t1 o1 u1 hs in
      let sum : length (a1 ++ a2) ≡ length a1 + length a2 = length-append a1 a2 in
      let whole : o2.bytes ≡ output.bytes ++ (a1 ++ a2) =
        s2 ∙ ap (λ t. t ++ a2) s1 ∙ append_assoc output.bytes a1 a2 in
      let size1 : length o1.bytes ≡ length output.bytes + length a1 =
        ap length s1 ∙ length-append output.bytes a1 in
      (
        t2,
        o2,
        a1 ++ a2,
        rw e1 e2,
        whole,
        omega (arith, sum),
        omega (arith, sum),
        λ b suf c g store consumed rounds small is room.
            let now =
              p1 b (a2 ++ suf) c g small
                (is ∙ ap (λ t. t ++ suf) s2 ∙ append_assoc o1.bytes a2 suf) in
            let store1 = (HeaderStore.emit store (as_read true f g)).1 in
            let (c', g', store', e, u, strings) =
              p2 b suf (unfinished c) (as_read true f g) store1 (consumed + length a1) rounds small
                is (omega (arith, sum)) in
            let inside : length output.bytes + length a1 ≤ length b.bytes = omega (
              arith,
              ap length is,
              length-append o2.bytes suf,
              ap length s2,
              length-append o1.bytes a2,
              size1,
            ) in
            (
              c',
              g',
              store',
              ap
                    (λ n.
                      all_loop decode_table shl_int n b (length output.bytes) c g (some store)
                        consumed)
                    (let n : suc (length fs) + rounds ≡ suc (length fs + rounds) = omega arith in n)
                  ∙ all_loop-field decode_table shl_int (length fs + rounds) b (length output.bytes)
                      c g store consumed (omega arith) (omega (arith, sum)) now
                      (read_full f g h.some_string)
                  ∙ ap
                      (λ n.
                        all_loop decode_table shl_int (length fs + rounds) b n (unfinished c)
                          (as_read true f g) (some store1) (consumed + length a1))
                      (sym size1)
                  ∙ e
                  ∙ ap
                      (λ n.
                        all_loop decode_table shl_int rounds b (length o2.bytes) c' g' (some store')
                          n)
                      (omega (arith, sum)),
              u,
              strings
                  ∙ ap (λ t. t ++ strings_of fs)
                      (strings_of-emit store (as_read true f g)
                        ∙ ap (λ t. strings_of store ++ t) (read_strings f g))
                  ∙ append_assoc (strings_of store) (strings_of (f ∷ [])) (strings_of fs),
            ),
      )

  -- The fields that an encoder holds are rendered behind any output, and `hpack_header_parser_all`
  -- reads the block from there. If the tables for Huffman codes agree, `enc->tmp` has the
  -- 32 bytes of its start at least, no field is empty, the names
  -- and values are octets whose codes take fewer than 127 octets, 255 octets for every field and the
  -- ones of the output come to less than 2 ^ 31, and the parser's iterator finds nothing left to be
  -- emitted, then both return ok, and the parser adds the same names and values in the same order to
  -- its store, consumes all of the block, and leaves its table and its reference set.
  pub all-render :
      (enc : HeaderEncoder) (output : Buffer) (c : Context) (store : List Field) (it : Iterator)
      → IsUsable enc.tmp
      → All (IsRendered codes) enc.store
      → length output.bytes + 255 * length enc.store < 2 ^ 31
      → BitmapSet.next shl_int c.ref_not_emitted c.iter_not_emitted ≡ (it, none)
      → (enc' : HeaderEncoder) × (output' : Buffer) × (c' : Context) × (store' : List Field)
        × (consumed : ℕ) × (render codes enc output ≡ done (ok, enc', output'))
        × (all decode_table shl_int output' (length output.bytes) c (some store) 0
            ≡ done (ok, c', some store', consumed))
        × (strings_of store' ≡ strings_of store ++ strings_of enc.store)
        × (length output.bytes + consumed ≡ length output'.bytes)
        × (c'.table ≡ c.table)
        × (c'.reference_set ≡ c.reference_set)
  unfolding render all HeaderField.init
  all-render enc output c store it usable h small none_left =
      let (tmp', o, added, e, s, l, m, p) = render_loop_read enc.store enc.tmp output usable h in
      let size : length o.bytes ≡ length output.bytes + length added =
        ap length s ∙ length-append output.bytes added in
      let r = length added - length enc.store + 129 in
      let fuel : length o.bytes - length output.bytes + 130 ≡ length enc.store + suc r =
        omega (arith, size) in
      let (c1, g1, store1, e1, u, strings) =
        p o [] c HeaderField.init.1 store 0 (suc r) (omega (arith, size)) (sym (append-nil o.bytes))
          (omega (arith, size)) in
      let still : BitmapSet.next shl_int c1.ref_not_emitted c1.iter_not_emitted ≡ (it, none) =
        ap (λ (x : Context). BitmapSet.next shl_int x.ref_not_emitted x.iter_not_emitted) u
        ∙ none_left in
      let (c2, e2, t, rs) =
        all_loop_end decode_table shl_int r o c1 g1 store1 (0 + length added) it still in
      (
        record { store = enc.store; tmp = tmp' },
        o,
        c2,
        store1,
        0 + length added,
        rw e refl,
        ap
              (λ n.
                all_loop decode_table shl_int n o (length output.bytes) c HeaderField.init.1
                  (some store) 0)
              fuel
            ∙ e1
            ∙ e2,
        strings,
        omega (arith, size),
        t ∙ ap (λ (x : Context). x.table) u,
        rs ∙ ap (λ (x : Context). x.reference_set) u,
      )
