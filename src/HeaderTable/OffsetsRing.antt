-- ===== src/HeaderTable/OffsetsRing.antt =====
-- libhpack/header_table.c, the circular buffer of the positions of the headers.
use libhpack.Common.{ℕ, ◌+◌, ◌-◌, ◌^◌, bit_and, Bool, ltb, ◌==◌, if◌then◌else◌}
use libhpack.Common.Ret.{Ret, ok, error}

-- `HPACK_MAX_HEADER_TABLE_ENTRIES` and `HPACK_CB_HEADER_OFFSETS_MASK`
abbrev pub max_entries : ℕ
max_entries = 128

abbrev pub offsets_mask : ℕ
offsets_mask = max_entries - 1

-- `hpack_headers_offs_cb_t`. Its positions are always masked, so no access is out of bounds.
pub record OffsetsRing : Type 0 where
  pub buffer : ℕ → ℕ
  pub head : ℕ
  pub tail : ℕ

-- `header_cb_move` on a position in this ring.
abbrev pub move : ℕ → ℕ → ℕ
move pos inc = bit_and (pos + inc) offsets_mask

-- `header_offsets_free` and `header_offs_is_full`
unfoldable pub free : OffsetsRing → ℕ
free o = bit_and (o.head + offsets_mask - o.tail) offsets_mask

unfoldable pub is_full : OffsetsRing → Bool
is_full o = bit_and (o.head + max_entries - 1) offsets_mask == o.tail

-- `header_offs_add`
unfoldable pub add : OffsetsRing → ℕ → Ret × OffsetsRing
unfolding free
add o offset = if ltb (free o) 1 then (error, o) else (
  ok,
  record {
    buffer = λ i. if i == o.tail then offset else o.buffer i;
    head = o.head;
    tail = move o.tail 1;
  },
)

-- `INDEX_SWITCH_HT_HPACK`, for a `uint16_t` index: between HPACK indexes and positions, both ways.
-- The difference may be negative; adding a multiple of the ring's size does not change its low bits.
unfoldable pub index_switch : OffsetsRing → ℕ → ℕ
index_switch o i = bit_and (o.tail + 2 ^ 16 + max_entries - i) offsets_mask
