-- ===== src/HeaderField/Laws.antt =====
-- Copies of header fields, and their size.
use libhpack.Common.{ℕ, ◌+◌, ◌^◌, ◌<◌, ◌≡◌, refl, arith, List, [], ◌∷◌, length, true, false, ◌↔◌}
use libhpack.Buffer
use libhpack.Buffer.{Buffer}
use libhpack.HeaderField.{Field, clean, copy, is_empty, get_size, entry_overhead}

add_buffer-clean : (b c : Buffer) → (Buffer.add_buffer (Buffer.clean b) c).bytes ≡ c.bytes
unfolding Buffer.add_buffer Buffer.clean Buffer.add
add_buffer-clean b c = go c.bytes
  where
    go : (xs : List ℕ) → (Buffer.add (Buffer.clean b) xs).bytes ≡ xs
    go [] = refl
    go (x ∷ xs) = refl

-- A copy into a field that was cleaned has the flags, the name and the value of the original, and
-- so its size, and is empty when it is.
pub copy-clean :
    (f g : Field)
    → let c : Field = (copy (clean f).1 g).1 in
      (c.flags ≡ g.flags)
      × (c.name.bytes ≡ g.name.bytes)
      × (c.value.bytes ≡ g.value.bytes)
      × (get_size c ≡ get_size g)
      × (is_empty c ≡ is_empty g)
unfolding copy clean get_size is_empty Buffer.is_empty Buffer.len
copy-clean f g =
    let n = add_buffer-clean f.name g.name in
    let v = add_buffer-clean f.value g.value in (refl, n, v, rw (n, v), rw (n, v))

-- A field counts for nothing exactly when it is empty; otherwise its size is that of both texts
-- and the overhead, while that fits 32 bits.
get_size_lem :
    (f : Field)
    → length f.name.bytes + length f.value.bytes + entry_overhead < 2 ^ 32
    → ((get_size f ≡ 0) ↔ (is_empty f ≡ true))
      × (is_empty f ≡ false
          → get_size f ≡ length f.name.bytes + length f.value.bytes + entry_overhead)
unfolding get_size is_empty Buffer.is_empty Buffer.len
get_size_lem f h = ground arith
