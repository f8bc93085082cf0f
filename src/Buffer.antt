-- ===== src/Buffer.antt =====
-- libchula/buffer.c: chula buffers, as far as the header code uses them. A buffer stands as its
-- contents and whether it has memory at all; where the size of the memory matters it is `Sized`. Memory
-- is taken to be granted, so nothing here fails.
pub mod Edit
pub mod Hex
pub mod Base64
pub mod Uri
pub mod Numbers
use libhpack.Common.{arith, ◌≤◌, ◌<◌, ◌+◌, ◌%◌, ◌^◌, ltb, leb, if◌then◌else◌}
use libhpack.Common.{ℕ, Bool, true, false, List, [], ◌∷◌, ◌++◌, length, ◌==◌}

-- `chula_buffer_t`: `bytes` are the `len` bytes at `buf`, and `has_memory` is `buf != NULL`.
pub record Buffer : Type 0 where
  pub bytes : List ℕ
  pub has_memory : Bool

unfoldable pub init : Buffer
init = record { bytes = []; has_memory = false }

unfoldable pub mrproper : Buffer → Buffer
mrproper b = record { bytes = []; has_memory = false }

-- The memory is kept.
unfoldable pub clean : Buffer → Buffer
clean b = record { bytes = []; has_memory = b.has_memory }

unfoldable pub len : Buffer → ℕ
len b = length b.bytes

unfoldable pub is_empty : Buffer → Bool
is_empty b = length b.bytes == 0

-- Adding no bytes returns at once, with no memory made.
unfoldable pub add : Buffer → List ℕ → Buffer
add b [] = b
add b (x ∷ xs) = record { bytes = b.bytes ++ (x ∷ xs); has_memory = true }

unfoldable pub add_buffer : Buffer → Buffer → Buffer
unfolding add
add_buffer b b2 = add b b2.bytes

unfoldable pub add_char : Buffer → ℕ → Buffer
add_char b c = record { bytes = b.bytes ++ (c ∷ []); has_memory = true }

-- A buffer with the number of bytes of its memory, `size`.
pub record Sized : Type 0 where
  pub buffer : Buffer
  pub size : ℕ

-- `chula_buffer_ensure_size` and `chula_buffer_ensure_addlen`: the field `size`, of 32 bits, from the
-- size and the length before. Memory is taken to be granted.
abbrev pub ensure_size : ℕ → ℕ → ℕ
ensure_size size wanted = if leb wanted size then size else wanted % 2 ^ 32

pub ensure_size_least : (size wanted : ℕ) → wanted < 2 ^ 32 → wanted ≤ ensure_size size wanted
ensure_size_least size wanted h = ground arith

abbrev pub ensure_addlen : ℕ → ℕ → ℕ → ℕ
ensure_addlen size len addlen =
    if ltb (len + addlen) size then size else ensure_size size (len + addlen + 1)

pub ensure_addlen_least :
    (size len addlen : ℕ) → len + addlen + 1 < 2 ^ 32 → len + addlen < ensure_addlen size len addlen
ensure_addlen_least size len addlen h = ground arith
