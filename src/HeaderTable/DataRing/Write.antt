-- ===== src/HeaderTable/DataRing/Write.antt =====
-- `header_data_add`: what it writes, and where.
use libhpack.Common.{ℕ, zero, suc, ◌+◌, ◌-◌, ◌%◌, ◌≤◌, ◌<◌, ◌≡◌, refl, ap, ◌∙◌, arith, min}
use libhpack.Common.{List, [], ◌∷◌, ◌++◌, none, some, bit_and_low}
use libhpack.Common.{length, take, drop, get_or, ltb, if◌then◌else◌}
use libhpack.Common.{length-append, length-take, length-drop, get_or-take, get_or-drop}
use libhpack.Common.Ret.{ok, error}
use libhpack.Common.Run.{done}
use libhpack.HeaderTable.DataRing.{DataRing, data_size, data_mask, free, move, put_bytes, add}
use libhpack.HeaderTable.DataRing.Window.{window, behind, put_bytes_at, window-eq, window-agree}

pub move_lem : (pos inc : ℕ) → move pos inc ≡ (pos + inc) % data_size
move_lem pos inc = bit_and_low 12 (pos + inc)

pub free_lem : (h : DataRing) → free h ≡ (h.head + data_mask - h.tail) % data_size
unfolding free
free_lem h = bit_and_low 12 (h.head + data_mask - h.tail)

-- `h'` is `h` with `xs` stored from the tail on, going round, and no other byte changed.
pub record IsWritten (h : DataRing) (xs : List ℕ) (h' : DataRing) : Type 0 where
  pub bytes :
      (i : ℕ)
      → i < data_size
      → h'.buffer i
        ≡ (if ltb (behind h.tail i) (length xs) then get_or xs (behind h.tail i) 0 else h.buffer i)
  pub tail_moved : h'.tail ≡ (h.tail + length xs) % data_size
  pub head_kept : h'.head ≡ h.head

module _ (h : DataRing) (xs : List ℕ) (ht : h.tail < data_size) (fits : length xs < data_size) where
  room : ℕ
  room = data_size - h.tail

  -- The array after the two copies.
  copied : ℕ → ℕ
  copied =
      let first = put_bytes h.buffer h.tail (take (min room (length xs)) xs) in
      if ltb room (length xs) then put_bytes first 0 (drop room xs) else first

  copied_at :
      (i : ℕ)
      → i < data_size
      → copied i
        ≡ (if ltb (behind h.tail i) (length xs) then get_or xs (behind h.tail i) 0 else h.buffer i)
  unfolding copied room
  copied_at i hi = ground (
    arith,
    put_bytes_at h.buffer (take (min room (length xs)) xs) h.tail i,
    put_bytes_at (put_bytes h.buffer h.tail (take (min room (length xs)) xs)) (drop room xs) 0 i,
    length-take (min room (length xs)) xs,
    length-drop room xs,
    get_or-take (min room (length xs)) xs (i - h.tail) 0,
    get_or-drop room xs i (room + i) 0,
  )

  pub stored : DataRing
  unfolding copied
  stored = record { buffer = copied; head = h.head; tail = move h.tail (length xs) }

  pub add-stored : length xs ≤ free h → add h (some xs) ≡ done (ok, stored)
  unfolding add copied room stored
  add-stored enough = ground (
    arith,
    length-take (min (data_size - h.tail) (length xs)) xs,
    length-drop (data_size - h.tail) xs,
  )

  pub stored-IsWritten : IsWritten h xs stored
  unfolding stored
  stored-IsWritten = record {
    bytes = copied_at;
    tail_moved = move_lem h.tail (length xs);
    head_kept = refl;
  }

-- Data that fits the free bytes is stored from the tail on, going round the end of the array; no
-- other byte changes, and the tail moves behind it. Nothing is written outside the array.
pub add_ok :
    (h : DataRing) (xs : List ℕ)
    → h.tail < data_size
    → length xs ≤ free h
    → (h' : DataRing) × (add h (some xs) ≡ done (ok, h')) × IsWritten h xs h'
add_ok h xs ht enough =
    let fits : length xs < data_size = omega (arith, free_lem h) in
    (stored h xs ht fits, add-stored h xs ht fits enough, stored-IsWritten h xs ht fits)

-- Data that does not fit is refused, and the ring is as it was; so is a NULL.
pub add_full :
    (h : DataRing) (xs : List ℕ)
    → free h < length xs
    → (add h (some xs) ≡ done (error, h)) × (add h none ≡ done (error, h))
add_full h xs full = unfold add in ground arith

-- What was added can be read as a window at the old tail, and every window that it did not touch
-- is as it was.
pub window-IsWritten :
    {h h' : DataRing} {xs : List ℕ}
    → h.tail < data_size
    → length xs < data_size
    → IsWritten h xs h'
    → window h'.buffer h.tail (length xs) ≡ xs
window-IsWritten {h} {h'} {xs} ht fits w =
    window-eq h'.buffer xs h.tail
      (λ k hk.
        let e : behind h.tail ((h.tail + k) % data_size) ≡ k = omega arith in
        ground (arith, e, w.bytes ((h.tail + k) % data_size) (omega arith)))
      ht

pub window-kept :
    {h h' : DataRing} {xs : List ℕ} (n pos : ℕ)
    → h.tail < data_size
    → pos < data_size
    → IsWritten h xs h'
    → ((k : ℕ) → k < n → length xs ≤ behind h.tail ((pos + k) % data_size))
    → window h'.buffer pos n ≡ window h.buffer pos n
window-kept {h} {h'} {xs} n pos ht hp w apart =
    window-agree h'.buffer h.buffer n pos
      (λ k hk. ground (arith, w.bytes ((pos + k) % data_size) (omega arith), apart k hk)) hp

get_or-append :
    (xs ys : List ℕ) (i : ℕ)
    → get_or (xs ++ ys) i 0
      ≡ (if ltb i (length xs) then get_or xs i 0 else get_or ys (i - length xs) 0)
get_or-append [] ys i = ground arith
get_or-append (x ∷ xs) ys zero = ground arith
get_or-append (x ∷ xs) ys (suc i) = ground (arith, get_or-append xs ys i)

-- Two additions in a row are one of both data.
pub IsWritten-append :
    {h h' h'' : DataRing} {xs ys : List ℕ}
    → h.tail < data_size
    → length xs + length ys < data_size
    → IsWritten h xs h'
    → IsWritten h' ys h''
    → IsWritten h (xs ++ ys) h''
IsWritten-append {h} {h'} {h''} {xs} {ys} ht fits w w' = record {
  bytes = λ i hi. ground (
    arith,
    w.bytes i hi,
    w'.bytes i hi,
    w.tail_moved,
    get_or-append xs ys (behind h.tail i),
    length-append xs ys,
    ap (λ k. get_or ys k 0) (later i hi),
  );
  tail_moved = omega (arith, w.tail_moved, w'.tail_moved, length-append xs ys);
  head_kept = w'.head_kept ∙ w.head_kept;
}
  where
    later :
        (i : ℕ)
        → i < data_size
        → behind h'.tail i ≡ (behind h.tail i + data_size - length xs) % data_size
    later i hi = omega (arith, w.tail_moved)
