-- ===== src/Integer/RoundTrip.antt =====
-- The decoder reads back what the encoder wrote.
use libhpack.Common.{ℕ, zero, suc, ◌+◌, ◌-◌, ◌*◌, ◌/◌, ◌%◌, ◌^◌, ◌≤◌, ◌<◌, min}
use libhpack.Common.{◌≡◌, refl, ap, inl, inr, arith, Bool-cases, ltb, ltb→lt}
use libhpack.Common.{List, [], ◌∷◌, ◌++◌, some, length, take, drop, All}
use libhpack.Common.Ret.{ok}
use libhpack.Integer.{encode, decode}
use libhpack.Integer.Vlq.{
  octets, octets_small, octets_large, number, number_last, number_more, prefix_of, tail_of,
  length-octets, length-tail_of,
}
use libhpack.Integer.Encode.{encode_lem}
use libhpack.Integer.Decode.{IsByte, answer, decode-answer}
use native.Mathlib.Nat.{one-le-pow}

-- The octets of a number stand for it, whatever follows them.
pub number-octets :
    (k value left : ℕ) (rest : List ℕ)
    → value < 128 ^ suc k
    → length (octets k value) ≤ left
    → number (take left (octets k value ++ rest)) ≡ some (value, length (octets k value))
number-octets k value zero rest h fits = absurd (omega (arith, length-octets k value))
number-octets zero value (suc left) rest h fits =
    rw (octets_small zero value (omega arith)) (number_last value _ (omega arith))
number-octets (suc k) value (suc left) rest h fits = elim (Bool-cases (ltb value 128)) [
  | inl small ↦
      rw (octets_small (suc k) value (ltb→lt _ _ small)) (number_last value _ (ltb→lt _ _ small))
  | inr big ↦
      let large : 128 ≤ value = ground arith in
      let is = octets_large k value large in
      let shorter : length (octets k (value / 128)) ≤ left = omega (arith, ap length is) in
      let ih = number-octets k (value / 128) left rest (omega arith) shorter in
      rw is (ground (arith, number_more (128 + value % 128) _ (omega arith) ih))
]

All-append-drop :
    (xs ys : List ℕ) (n : ℕ) → All IsByte xs → All IsByte ys → All IsByte (xs ++ drop n ys)
All-append-drop (x ∷ xs) ys n (h, hs) k = (h, All-append-drop xs ys n hs k)
All-append-drop [] ys zero h k = k
All-append-drop [] [] (suc n) h k = tt
All-append-drop [] (y ∷ ys) (suc n) h (k, ks) = All-append-drop [] ys n h ks

octets-IsByte : (k value : ℕ) → value < 128 ^ suc k → All IsByte (octets k value)
unfolding octets
octets-IsByte zero value h = omega arith
octets-IsByte (suc k) value h = ground (arith, octets-IsByte k (value / 128) (omega arith))

tail_of-IsByte : (n value : ℕ) → value < 2 ^ 32 → All IsByte (tail_of n value)
unfolding tail_of
tail_of-IsByte n value h = ground (arith, octets-IsByte 4 (value - (2 ^ n - 1)) (omega arith))

-- Whatever follows the octets of a 32-bit number, the independent reading of them gives it back.
answer-tail_of :
    (n value left consumed : ℕ) (rest : List ℕ)
    → value < 2 ^ 32
    → length (tail_of n value) ≤ left
    → answer n (tail_of n value ++ rest) left (prefix_of n value) consumed
      ≡ some (ok, value, 1 + length (tail_of n value))
unfolding answer prefix_of tail_of
answer-tail_of n value left consumed rest h fits =
    ground (arith, number-octets 4 (value - (2 ^ n - 1)) left rest (omega arith))

length-append-drop :
    (xs ys : List ℕ) → length xs ≤ length ys → length (xs ++ drop (length xs) ys) ≡ length ys
length-append-drop [] ys h = refl
length-append-drop (x ∷ xs) [] h = absurd (omega arith)
length-append-drop (x ∷ xs) (y ∷ ys) h = ap suc (length-append-drop xs ys (omega arith))

head_octet :
    (n first low : ℕ)
    → n ≤ 8
    → first < 256
    → low < 2 ^ n
    → (first / 2 ^ n * 2 ^ n + low < 256) × ((first / 2 ^ n * 2 ^ n + low) % 2 ^ n ≡ low)
head_octet zero first low hn hf hl = omega arith
head_octet (suc zero) first low hn hf hl = omega arith
head_octet (suc (suc zero)) first low hn hf hl = omega arith
head_octet (suc (suc (suc zero))) first low hn hf hl = omega arith
head_octet (suc (suc (suc (suc zero)))) first low hn hf hl = omega arith
head_octet (suc (suc (suc (suc (suc zero))))) first low hn hf hl = omega arith
head_octet (suc (suc (suc (suc (suc (suc zero)))))) first low hn hf hl = omega arith
head_octet (suc (suc (suc (suc (suc (suc (suc zero))))))) first low hn hf hl = omega arith
head_octet (suc (suc (suc (suc (suc (suc (suc (suc zero)))))))) first low hn hf hl = omega arith
head_octet (suc (suc (suc (suc (suc (suc (suc (suc (suc n))))))))) first low hn hf hl =
    absurd (omega arith)

prefix_of-lt : (n value : ℕ) → prefix_of n value < 2 ^ n
unfolding prefix_of
prefix_of-lt n value = ground (arith, one-le-pow n 2)

-- Every 32-bit number survives: whatever the prefix length up to 8 and whatever the memory
-- held, if the octets fit it the encoder returns `ok` and their count, and the decoder, given a
-- length that covers them, returns `ok`, the number and the same count.
pub decode-encode :
    (n value first mem_len consumed : ℕ) (post : List ℕ)
    → n ≤ 8
    → value < 2 ^ 32
    → first < 256
    → All IsByte post
    → length (tail_of n value) < mem_len
    → mem_len ≤ length post + 1
    → (mem : List ℕ) × (used : ℕ) × (encode n value (first ∷ post) ≡ some (ok, mem, used))
      × (decode n mem mem_len consumed ≡ some (ok, value, used))
decode-encode n value first mem_len consumed post hn hv hf hp h1 h2 = (
  (first / 2 ^ n * 2 ^ n + low) ∷ (tail ++ drop (length tail) post),
  1 + length tail,
  encode_lem n value first post hn hv hf (omega arith),
  reads,
)
  where
    low : ℕ
    low = prefix_of n value

    tail : List ℕ
    tail = tail_of n value

    head : (first / 2 ^ n * 2 ^ n + low < 256) × ((first / 2 ^ n * 2 ^ n + low) % 2 ^ n ≡ low)
    head = head_octet n first low hn hf (prefix_of-lt n value)

    reads :
        decode n
          ((first / 2 ^ n * 2 ^ n + low) ∷ (tail ++ drop (length tail) post))
          mem_len
          consumed
        ≡ some (ok, value, 1 + length tail)
    reads = ground (
      arith,
      head,
      length-append-drop tail post (omega arith),
      length-tail_of n value,
      decode-answer n (first / 2 ^ n * 2 ^ n + low) mem_len consumed
          (tail ++ drop (length tail) post) hn head.0
          (All-append-drop tail post (length tail) (tail_of-IsByte n value hv) hp),
      answer-tail_of n value (min mem_len 6 - 1) consumed (drop (length tail) post) hv,
    )
