-- ===== src/Lib.antt =====
-- libhpack reads and writes HTTP/2 header blocks in the HPACK format. Its parts: numbers with a
-- prefix (libhpack/integer.c); header fields (libhpack/header_field.c), whose texts are chula buffers
-- (libchula/buffer.c); the header table (libhpack/header_table.c), a FIFO of fields in two circular
-- buffers behind a static table of 61 entries, which reports evictions as sets of positions
-- (libhpack/bitmap_set.c); and, on top of them, the parser, the encoder, the Huffman code and the
-- store of parsed fields.
--
-- Common: names that the files share. Common.Ret has the result codes of libchula/common.h, and
-- Common.Run the outcomes of code that may leave C's defined behaviour (`fault`: an access outside an
-- array) or not end (`stuck`: a loop that asks for more rounds than the model gives it). Common.Bits
-- has the lemmas on masks and single bits.
--
-- Integer: libhpack/integer.c. `encode` and `decode` are hpack_integer_encode and
-- hpack_integer_decode on a memory that is a list of bytes; `none` is an access outside it. The loop
-- of the encoder recurs on accessibility. Integer.Vlq describes the number format apart from the code.
--
-- BitmapSet: libhpack/bitmap_set.c on 64-bit words, each function under its name without the prefix
-- hpack_set_, and `clone` for hpack_set_set. `1 << bit` on an int is the parameter of the iterator.
--
-- Buffer: the part of libchula/buffer.c that the header code calls; in Buffer.Edit functions that
-- change contents, where remove_chunk keeps the field `len` beside the memory; in Buffer.Hex and
-- Buffer.Base64 the encoders and the decoders, which work in place, round by round on the memory; in
-- Buffer.Uri the escaping of URIs, with `isxdigit` of the C library as a parameter; in Buffer.Numbers
-- numbers as text, with the array of 64 characters that the digits are made in, and `fault` for a
-- digit outside it. Where code asks for memory by a sum of its own and then writes to it, the buffer
-- is `Sized`, sums are of 32 bits, and a write behind the memory is a `fault`. Elsewhere the memory
-- is taken to be large enough. Allocation is taken to succeed.
--
-- HeaderField: libhpack/header_field.c, without allocation and textual representation.
--
-- HeaderTable: libhpack/header_table.c. DataRing is hpack_headers_data_cb_t with header_data_get,
-- header_data_get_chula and header_data_add; OffsetsRing is hpack_headers_offs_cb_t; Info the record
-- that stands before each field, in the layout of x86-64 compilers; StaticTable the static table.
-- Table has the state and the evictions (header_table_evict and the loops that call it), Update
-- hpack_header_table_add and hpack_header_table_set_max, Query hpack_header_table_get and
-- hpack_header_table_get_set_idx. Loops that evict have one round more than the table has headers;
-- HeaderTable.Table.Shrink shows when that is enough. HeaderTable.Holds says when a table holds a list
-- of fields, the abstract view: their records and texts follow one another in the data, round its
-- end, the offsets name them in order, and the counters agree with them. Several results ask that
-- records stand where the code reads them rightly, since the code subtracts the head from the
-- distance to the end of the array.
--
-- Huffman: libhpack/huffman.c, with the decoder in the root and the encoder in Huffman.Encoder. Their
-- tables, which the build generates, are parameters. Huffman.Tables says when they agree: each
-- state of the decoder stands for the bits of a code that have been read, four bits that complete a
-- code lead to its symbol, and others to no symbol. Huffman.Octets has tables that do. The loop of
-- the encoder over the bits of a code has one round more than the code has bits; every
-- round takes one at least. The encoder keeps the size of its output's memory, and every write is
-- tested against it; Huffman.Encoder.Overrun has an input that is written behind it.
--
-- HeaderStore: libhpack/header_store.c, a list of fields, which the parser emits to and the encoder
-- renders from.
--
-- HeaderEncoder: libhpack/header_encoder.c, each function under its name without its prefix.
-- HeaderEncoder.Strings, Fields and Blocks compose it with the parser, for strings that one octet of
-- length is enough for: the parser takes the length that is left for an unsigned char, and so refuses
-- some longer ones.
--
-- HeaderParser: libhpack/header_parser.c. The root has the decoding context; Strings has
-- parse_string, Representations parse_indexed, parse_header_pair, parse_context_update and
-- final_reference_set_process, and Block hpack_header_parser_field and hpack_header_parser_all, which
-- emits to the store. The memory of a block is its contents and the terminator that chula buffers
-- have; the decoder of a coded string reads it octet by octet. HeaderParser.Agreement says when a context is sound: the table holds a list of fields, every
-- reference is to one of them, and what is still to be emitted is referenced; the files around it say
-- what a representation does to that list and to both sets. The loop over a whole block has one round
-- for every octet, one for every position of the table, and two more.
--
-- LinkedList: the circular lists of libchula/list.h and list.c. The state is the two pointers of every
-- node; LinkedList.Ring says when they make a list of given nodes. The count of the nodes has as many
-- rounds as it is given.
--
-- Not modelled: allocation and release, which are taken to succeed; textual representations; the
-- iterator over the header table; the rest of libchula; the generated Huffman tables.
pub mod BitmapSet
pub mod Buffer
pub mod Common
pub mod HeaderEncoder
pub mod HeaderField
pub mod HeaderParser
pub mod HeaderStore
pub mod HeaderTable
pub mod Huffman
pub mod Integer
pub mod LinkedList
