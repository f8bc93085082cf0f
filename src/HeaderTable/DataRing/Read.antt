-- ===== src/HeaderTable/DataRing/Read.antt =====
-- `header_data_get` and `header_data_get_chula`: where they read the ring rightly, and where not.
use libhpack.Common.{ℕ, ◌+◌, ◌-◌, ◌≤◌, ◌<◌, ◌≡◌, arith}
use libhpack.Common.{List, ◌++◌, leb}
use libhpack.Common.{inl, inr, ◌⊎◌, Bool-cases}
use libhpack.Common.Ret.{ok}
use libhpack.Common.Run.{done, fault}
use libhpack.HeaderTable.DataRing.{DataRing, data_size, to_end, bytes_at, get_bytes, get, get_chula}
use libhpack.HeaderTable.DataRing.Window.{window, bytes_at-window, window-split}
use libhpack.Buffer
use libhpack.Buffer.{Buffer}
use mathlib.Core.List.{append-nil}

-- Where the read is right: either nothing has been evicted yet, so that the head is at the start
-- of the array, or the bytes do not reach round its end, and the distance from `offset` to the
-- end is not cut short, as the code subtracts the head from it as well.
pub record IsReadable (h : DataRing) (offset n : ℕ) : Type 0 where
  pub offset_in : offset < data_size
  pub head_in : h.head < data_size
  pub size_in : n ≤ data_size
  pub unbroken :
      (h.head ≡ 0)
      ⊎ ((offset + n ≤ data_size)
          × ((offset + h.head + n ≤ data_size) ⊎ (data_size < offset + h.head)))

straight :
    (h : DataRing) (offset n : ℕ)
    → offset + n ≤ data_size
    → n ≤ to_end h offset
    → get_bytes h offset n ≡ done (window h.buffer offset n)
unfolding get_bytes
straight h offset n h1 h2 =
    ground (arith, bytes_at-window h.buffer n offset h1, append-nil (bytes_at h.buffer offset n))

-- With the head at the start, the two copies are the two parts of the window.
round_end :
    (h : DataRing) (offset n : ℕ)
    → h.head ≡ 0
    → offset < data_size
    → n ≤ data_size
    → data_size < offset + n
    → get_bytes h offset n ≡ done (window h.buffer offset n)
unfolding get_bytes
round_end h offset n h0 ho hn over = ground (
  arith,
  bytes_at-window h.buffer (data_size - offset) offset (omega arith),
  bytes_at-window h.buffer (n - (data_size - offset)) 0 (omega arith),
  window-split h.buffer (data_size - offset) (n - (data_size - offset)) n offset (omega arith) ho,
)

get_bytes-window :
    (h : DataRing) (offset n : ℕ)
    → IsReadable h offset n
    → get_bytes h offset n ≡ done (window h.buffer offset n)
get_bytes-window h offset n r = elim (Bool-cases (leb (offset + n) data_size)) [
  | inl within ↦ straight h offset n (ground arith) (ground arith)
  | inr over ↦ round_end h offset n (ground arith) r.offset_in r.size_in (ground arith)
]

-- Where a read is right, both functions deliver the bytes from the offset on, going round the end
-- of the array; the second adds them to what its buffer holds.
pub get-window :
    (h : DataRing) (offset n : ℕ) (dst : List ℕ) (out : Buffer)
    → IsReadable h offset n
    → (get h offset dst n ≡ done (ok, window h.buffer offset n))
      × (get_chula h offset out n ≡ done (ok, Buffer.add out (window h.buffer offset n)))
get-window h offset n dst out r = (
  unfold get in ground (arith, get_bytes-window h offset n r, r.size_in),
  unfold get_chula in ground (arith, get_bytes-window h offset n r, r.size_in),
)

-- Bytes that lie in one piece, but that reach beyond the end of the array less the head, are read
-- wrongly once the head has moved: behind the first ones come bytes from the start of the array.
pub get_cut :
    (h : DataRing) (offset n : ℕ) (dst : List ℕ)
    → 0 < h.head
    → offset + n ≤ data_size
    → offset + h.head ≤ data_size
    → data_size < offset + h.head + n
    → let kept : ℕ = data_size - (offset + h.head) in
      get h offset dst n ≡ done (ok, window h.buffer offset kept ++ window h.buffer 0 (n - kept))
get_cut h offset n dst h0 h1 h2 h3 =
    let kept : ℕ = data_size - (offset + h.head) in
    unfold get get_bytes in
    ground (
      arith,
      bytes_at-window h.buffer kept offset (omega arith),
      bytes_at-window h.buffer (n - kept) 0 (omega arith),
    )

-- Bytes that go round the end of the array are read from beyond it, where the offset and the head
-- together are larger than the array.
pub get_beyond :
    (h : DataRing) (offset n : ℕ) (dst : List ℕ)
    → offset < data_size
    → h.head < data_size
    → n ≤ data_size
    → data_size < offset + h.head
    → data_size < offset + n
    → get h offset dst n ≡ fault
get_beyond h offset n dst ho hh hn over round = unfold get get_bytes in ground arith
