-- ===== src/HeaderEncoder.antt =====
-- libhpack/header_encoder.c. The codes of huffman.c, which the build generates, are a parameter.
pub mod Strings
pub mod Fields
pub mod Blocks
mod Tests
use libhpack.Common.{
  ℕ, ◌+◌, ◌%◌, ◌^◌, Bool, true, false, List, [], ◌∷◌, length, take, ltb, leb, if◌then◌else◌,
}
use libhpack.Common.Ret.{Ret, ok, is_ok}
use libhpack.Common.Run.{Run, done, fault, ◌>>=◌, checked}
use libhpack.Buffer
use libhpack.Buffer.{Buffer, Sized}
use libhpack.Integer
use libhpack.Huffman.Encoder.{Code}
use libhpack.Huffman.Encoder
use libhpack.HeaderField
use libhpack.HeaderField.{Field}
use libhpack.HeaderStore

-- `hpack_header_encoder_t`
pub record HeaderEncoder : Type 0 where
  pub store : List Field
  pub tmp : Sized

-- The buffer has memory for 32 bytes at once.
unfoldable pub init : Ret × HeaderEncoder
unfolding HeaderStore.init
init = (
  ok,
  record {
    store = HeaderStore.init.1;
    tmp = record { buffer = record { bytes = []; has_memory = true }; size = 32 };
  },
)

unfoldable pub add_field : HeaderEncoder → Field → Ret × HeaderEncoder
unfolding HeaderStore.emit
add_field enc field =
    let (r, store) = HeaderStore.emit enc.store field in
    (r, record { store = store; tmp = enc.tmp })

-- `hpack_header_encoder_add`, where the memory for the new field is granted.
unfoldable pub add : HeaderEncoder → Buffer → Buffer → Ret × HeaderEncoder
unfolding add_field HeaderField.init Buffer.add_buffer
add enc name value =
    let field = HeaderField.init.1 in
    add_field enc (record {
      flags = field.flags;
      name = Buffer.add_buffer field.name name;
      value = Buffer.add_buffer field.value value;
    })

-- The array `mem`, with `first` in front.
abbrev mem_of : ℕ → List ℕ
mem_of first = first ∷ 0 ∷ 0 ∷ 0 ∷ 0 ∷ 0 ∷ 0 ∷ 0 ∷ 0 ∷ 0 ∷ 0 ∷ 0 ∷ 0 ∷ 0 ∷ 0 ∷ 0 ∷ []

-- The parts "Length" and "Compose" of `add_string`: the status and the output.
compose : ℕ → Buffer → Buffer → Run (Ret × Buffer)
unfolding Buffer.add Buffer.add_buffer
compose first body output = do
  (r, mem, mem_len) ← checked (Integer.encode 7 (length body.bytes) (mem_of first))
  if is_ok r
      then if leb mem_len 16
        then done (ok, Buffer.add_buffer (Buffer.add output (take mem_len mem)) body)
        else fault
      else done (r, output)

module _ (codes : ℕ → Code) where
  -- `add_string`: the status, `enc->tmp` and the output.
  unfoldable pub add_string : Sized → Buffer → Bool → Buffer → Run (Ret × Sized × Buffer)
  unfolding compose Buffer.clean Encoder.encode
  add_string tmp input huffman output =
      let cleaned : Sized = record { buffer = Buffer.clean tmp.buffer; size = tmp.size } in
      let coded : Run (Ret × Sized × Buffer) = do
        (r, tmp') ← Encoder.encode codes input.bytes cleaned
        let composed : Run (Ret × Sized × Buffer) = do
          (r', output') ← compose (2 ^ 7) tmp'.buffer output
          done (r', tmp', output')
        if is_ok r then composed else done (r, tmp', output)
      in let plain : Run (Ret × Sized × Buffer) = do
        (r, output') ← compose 0 input output
        done (r, cleaned, output')
        in if huffman then coded else plain

  -- `render_indexed` puts out nothing.
  unfoldable pub render_indexed : Sized → Field → Buffer → Run (Ret × Sized × Buffer)
  render_indexed tmp field output = done (ok, tmp, output)

  unfoldable pub render_indexed_value :
      Sized → Field → Bool → Bool → Buffer → Run (Ret × Sized × Buffer)
  unfolding add_string Buffer.add_char
  render_indexed_value tmp field huffman indexing output =
      add_string tmp field.value huffman (Buffer.add_char output (if indexing then 2 ^ 3 else 0))

  -- `render_literal`: the status, `enc->tmp` and the output. As a byte, `(char)1<<7` is 128.
  unfoldable pub render_literal : Sized → Field → Bool → Bool → Buffer → Run (Ret × Sized × Buffer)
  unfolding add_string Buffer.add_char
  render_literal tmp field huffman indexing output = do
    (r, tmp', output') ←
        add_string tmp field.name huffman (Buffer.add_char output (if indexing then 2 ^ 7 else 0))
    if is_ok r then add_string tmp' field.value huffman output' else done (r, tmp', output')

  -- The loop of `hpack_header_encoder_render` over the fields of the store.
  render_loop : List Field → Sized → Buffer → Run (Ret × Sized × Buffer)
  unfolding render_literal
  render_loop [] tmp output = done (ok, tmp, output)
  render_loop (field ∷ fields) tmp output = do
    (r, tmp', output') ← render_literal tmp field true false output
    let rest = render_loop fields tmp' output'
    if is_ok r then rest else done (r, tmp', output')

  -- `hpack_header_encoder_render`: the status, the encoder and the output.
  unfoldable pub render : HeaderEncoder → Buffer → Run (Ret × HeaderEncoder × Buffer)
  unfolding render_loop
  render enc output = do
    (r, tmp, output') ← render_loop enc.store enc.tmp output
    done (r, record { store = enc.store; tmp = tmp }, output')
