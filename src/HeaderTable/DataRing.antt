-- ===== src/HeaderTable/DataRing.antt =====
-- libhpack/header_table.c, the circular buffer of header data: bytes of C memory, and the three
-- functions that read and write it.
pub mod Window
pub mod Write
pub mod Read
use libhpack.Common.{ℕ, zero, suc, ◌+◌, ◌-◌, ◌%◌, ◌^◌, min, bit_and, List, [], ◌∷◌, ◌++◌, length}
use libhpack.Common.{Option, none, some, ltb, leb, ◌==◌, if◌then◌else◌, take, drop}
use libhpack.Common.Ret.{Ret, ok, error}
use libhpack.Common.Run.{Run, done, fault, ◌>>=◌}
use libhpack.Buffer
use libhpack.Buffer.{Buffer}

-- `HPACK_CB_HEADER_DATA_SIZE` and `HPACK_CB_HEADER_DATA_MASK`
abbrev pub data_size : ℕ
data_size = 4096

abbrev pub data_mask : ℕ
data_mask = data_size - 1

-- `hpack_headers_data_cb_t`. The array is a function of the index; the accesses check its bound.
pub record DataRing : Type 0 where
  pub buffer : ℕ → ℕ
  pub head : ℕ
  pub tail : ℕ

-- `header_data_used` and `header_data_free`. The sums are not negative, since positions are below
-- the size.
pub used : DataRing → ℕ
used h = bit_and (h.tail + 1 + data_mask - h.head) data_mask

pub free : DataRing → ℕ
free h = bit_and (h.head + data_mask - h.tail) data_mask

-- `header_cb_move` on a position in this ring.
abbrev pub move : ℕ → ℕ → ℕ
move pos inc = bit_and (pos + inc) data_mask

-- `memcpy` from the array, `n` bytes from `pos` on, and into it.
abbrev pub bytes_at : (ℕ → ℕ) → ℕ → ℕ → List ℕ
bytes_at buffer pos zero = []
bytes_at buffer pos (suc n) = buffer pos ∷ bytes_at buffer (pos + 1) n

abbrev pub put_bytes : (ℕ → ℕ) → ℕ → List ℕ → ℕ → ℕ
put_bytes buffer pos [] i = buffer i
put_bytes buffer pos (x ∷ xs) i = if i == pos then x else put_bytes buffer (pos + 1) xs i

copy_out : (ℕ → ℕ) → ℕ → ℕ → Run (List ℕ)
copy_out buffer pos n = if leb (pos + n) data_size then done (bytes_at buffer pos n) else fault

copy_in : (ℕ → ℕ) → ℕ → List ℕ → Run (ℕ → ℕ)
copy_in buffer pos xs =
    if leb (pos + length xs) data_size then done (put_bytes buffer pos xs) else fault

-- `HPACK_CB_HEADER_DATA_SIZE - offset - h_data->head`, an `int` made `unsigned`.
abbrev pub to_end : DataRing → ℕ → ℕ
to_end h offset = (data_size + 2 ^ 32 - (offset + h.head)) % 2 ^ 32

-- The two copies of `header_data_get` and `header_data_get_chula`.
get_bytes : DataRing → ℕ → ℕ → Run (List ℕ)
unfolding copy_out
get_bytes h offset n = do
  first ← copy_out h.buffer offset (min (to_end h offset) n)
  rest ← if ltb (to_end h offset) n then copy_out h.buffer 0 (n - to_end h offset) else done []
  done (first ++ rest)

-- `header_data_get`: the status, and what is at `dst`, which held `dst`.
unfoldable pub get : DataRing → ℕ → List ℕ → ℕ → Run (Ret × List ℕ)
unfolding get_bytes
get h offset dst n =
    if ltb data_size n then done (error, dst) else do got ← get_bytes h offset n; done (ok, got)

-- `header_data_get_chula`: the bytes are added to the buffer `dst`.
unfoldable pub get_chula : DataRing → ℕ → Buffer → ℕ → Run (Ret × Buffer)
unfolding get_bytes Buffer.add
get_chula h offset dst n =
    if ltb data_size n
    then done (error, dst)
    else do got ← get_bytes h offset n; done (ok, Buffer.add dst got)

-- `header_data_add`. `none` is a NULL for the data.
unfoldable pub add : DataRing → Option (List ℕ) → Run (Ret × DataRing)
unfolding copy_in free
add h none = done (error, h)
add h (some xs) =
    let room : ℕ = data_size - h.tail in
    if ltb (free h) (length xs) then done (error, h) else do
      first ← copy_in h.buffer h.tail (take (min room (length xs)) xs)
      second ← if ltb room (length xs) then copy_in first 0 (drop room xs) else done first
      done (ok, record { buffer = second; head = h.head; tail = move h.tail (length xs) })
