-- ===== src/HeaderField.antt =====
-- libhpack/header_field.c and header_field.h.
pub mod Laws
mod Tests
use libhpack.Common.{ℕ, ◌+◌, ◌%◌, ◌^◌, Bool, false, ◌&&◌, if◌then◌else◌}
use libhpack.Buffer
use libhpack.Buffer.{Buffer}
use libhpack.Common.Ret.{Ret, ok}

-- `hpack_header_field_type_t`, and below it `hpack_header_field_representation_t`. They are kept
-- in bit fields, so they stand as numbers.
abbrev pub is_indexed_ht : ℕ
is_indexed_ht = 0

abbrev pub is_indexed_static : ℕ
is_indexed_static = 1

abbrev pub is_new : ℕ
is_new = 2

abbrev pub is_new_huffman : ℕ
is_new_huffman = 3

abbrev pub rep_empty : ℕ
rep_empty = 0

abbrev pub rep_user_supplied : ℕ
rep_user_supplied = 1

abbrev pub rep_indexed : ℕ
rep_indexed = 2

abbrev pub rep_inc_indexed : ℕ
rep_inc_indexed = 3

abbrev pub rep_wo_indexing : ℕ
rep_wo_indexing = 4

abbrev pub rep_never_indx : ℕ
rep_never_indx = 5

-- `HPACK_HEADER_ENTRY_OVERHEAD`
abbrev pub entry_overhead : ℕ
entry_overhead = 32

-- `hpack_header_field_flags_t`: bit fields of 2, 2 and 3 bits.
pub record Flags : Type 0 where
  pub name : ℕ
  pub value : ℕ
  pub rep : ℕ

-- `hpack_header_field_t`
pub record Field : Type 0 where
  pub flags : Flags
  pub name : Buffer
  pub value : Buffer

unfoldable pub init : Ret × Field
unfolding Buffer.init
init = (
  ok,
  record {
    flags = record { name = is_indexed_ht; value = is_indexed_ht; rep = rep_empty };
    name = Buffer.init;
    value = Buffer.init;
  },
)

-- The two types in the flags are left as they were.
unfoldable pub clean : Field → Ret × Field
unfolding Buffer.clean
clean f = (
  ok,
  record {
    flags = record { name = f.flags.name; value = f.flags.value; rep = rep_empty };
    name = Buffer.clean f.name;
    value = Buffer.clean f.value;
  },
)

-- The contents of `tocopy` are added to what the buffers hold.
unfoldable pub copy : Field → Field → Ret × Field
unfolding Buffer.add_buffer
copy f tocopy = (
  ok,
  record {
    flags = tocopy.flags;
    name = Buffer.add_buffer f.name tocopy.name;
    value = Buffer.add_buffer f.value tocopy.value;
  },
)

unfoldable pub is_empty : Field → Bool
unfolding Buffer.is_empty
is_empty f = if Buffer.is_empty f.name then Buffer.is_empty f.value else false

-- `*size`. The sum is made in `uint32_t`, and only then widened.
unfoldable pub get_size : Field → ℕ
unfolding Buffer.is_empty Buffer.len
get_size f =
    if Buffer.is_empty f.name && Buffer.is_empty f.value
    then 0
    else (Buffer.len f.name + Buffer.len f.value + entry_overhead) % 2 ^ 32
