-- ===== src/HeaderTable/Info.antt =====
-- libhpack/header_table.h, `hpack_header_table_field_info_t`: what stands in the data before each
-- field, in the layout that x86-64 compilers give it. Its eight bytes are two 16-bit numbers, the
-- low byte first, and a 32-bit word of bit fields; the bits of that word that are no field are 0.
use libhpack.Common.{
  ℕ, ◌+◌, ◌*◌, ◌/◌, ◌%◌, ◌<◌, ◌≡◌, refl, arith, List, [], ◌∷◌, Option, none, some, length,
}
use libhpack.HeaderField.{Flags}

pub record Info : Type 0 where
  pub name_length : ℕ
  pub value_length : ℕ
  pub flags : Flags

-- `sizeof(info)`
abbrev pub info_size : ℕ
info_size = 8

unfoldable pub to_bytes : Info → List ℕ
to_bytes i =
    i.name_length % 256
    ∷ i.name_length / 256
    ∷ i.value_length % 256
    ∷ i.value_length / 256
    ∷ (i.flags.name + i.flags.value * 4 + i.flags.rep * 16)
    ∷ 0
    ∷ 0
    ∷ 0
    ∷ []

-- `none` for fewer than eight bytes, which the copies never deliver.
unfoldable pub of_bytes : List ℕ → Option Info
of_bytes (a ∷ b ∷ c ∷ d ∷ f ∷ _ ∷ _ ∷ _ ∷ rest) = some (record {
  name_length = a + b * 256;
  value_length = c + d * 256;
  flags = record { name = f % 4; value = f / 4 % 4; rep = f / 16 % 8 };
})
of_bytes _ = none

pub record IsFlags (f : Flags) : Type 0 where
  pub name_in : f.name < 4
  pub value_in : f.value < 4
  pub rep_in : f.rep < 8

pub length-to_bytes : (i : Info) → length (to_bytes i) ≡ info_size
unfolding to_bytes
length-to_bytes i = refl

-- What is stored for a field reads back the same.
pub of_bytes-to_bytes : (i : Info) → IsFlags i.flags → of_bytes (to_bytes i) ≡ some i
unfolding of_bytes to_bytes
of_bytes-to_bytes i h = ground arith
