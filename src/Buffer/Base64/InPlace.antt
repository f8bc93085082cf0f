-- ===== src/Buffer/Base64/InPlace.antt =====
-- The decoder writes over the text that it reads, against a plain decoding of a list.
use libhpack.Common.{ℕ, zero, suc, ◌+◌, ◌-◌, ◌<◌, ◌≤◌, ◌≡◌, ◌∙◌, refl, sym, ap, arith, ◌==◌}
use libhpack.Common.{
  List, [], ◌∷◌, ◌++◌, length, take, drop, length-append, length-take, length-drop, take-append,
  drop-append, get_elem?, some, none, false, Bool-cases, inl, inr, Option-cases,
}
use mathlib.Core.List.{append_assoc, append-nil}
use libhpack.Buffer
use libhpack.Buffer.{Buffer}
use libhpack.Buffer.Base64.{
  b64_decode, Decoding, digit_bytes, next_phase, with_digit, copied, flushed, round, decode_loop,
  decode_base64,
}

-- The bytes that a text stands for, from a phase and the digit before it on.
abbrev pub decoded : ℕ → ℕ → List ℕ → List ℕ
decoded phase prev_d [] = []
decoded phase prev_d (c ∷ cs) = elim (b64_decode c) [
  | none ↦ decoded phase prev_d cs
  | some d ↦ digit_bytes phase prev_d d ++ decoded (next_phase phase) d cs
]

drop-drop : (k m n : ℕ) (xs : List ℕ) → n ≡ k + m → drop m (drop k xs) ≡ drop n xs
drop-drop zero m n xs e = let same : m ≡ n = omega arith in ap (λ x. drop x xs) same
drop-drop (suc k) zero zero [] e = refl
drop-drop (suc k) m zero xs e = absurd (omega arith)
drop-drop (suc k) zero (suc n) [] e = refl
drop-drop (suc k) (suc m) (suc n) [] e = refl
drop-drop (suc k) m (suc n) (x ∷ xs) e = drop-drop k m n xs (omega arith)

drop_first :
    (i : ℕ) (xs : List ℕ) (y : ℕ) (ys : List ℕ)
    → drop i xs ≡ y ∷ ys
    → (get_elem? xs i ≡ some y) × (drop (i + 1) xs ≡ ys)
drop_first zero [] y ys e = absurd (ground arith)
drop_first zero (x ∷ xs) y ys e = (cc, cc)
drop_first (suc i) [] y ys e = absurd (ground arith)
drop_first (suc i) (x ∷ xs) y ys e =
    let (h, t) = drop_first i xs y ys e in
    let one_more : suc i + 1 ≡ suc (i + 1) = omega arith in (h, rw one_more t)

-- A copy to a place that has room for it.
module _ (mem : List ℕ) (at : ℕ) (bytes : List ℕ) (inside : at + length bytes ≤ length mem) where
  front : length (take at mem ++ bytes) ≡ at + length bytes
  front = omega (arith, length-append (take at mem) bytes, length-take at mem)

  copied_is : copied mem at bytes ≡ (take at mem ++ bytes) ++ drop (at + length bytes) mem
  copied_is = sym (append_assoc (take at mem) bytes (drop (at + length bytes) mem))

  take-copied : take (at + length bytes) (copied mem at bytes) ≡ take at mem ++ bytes
  take-copied =
      ap (λ n. take n (copied mem at bytes)) (sym front)
      ∙ ap (take (length (take at mem ++ bytes))) copied_is
      ∙ take-append (take at mem ++ bytes) (drop (at + length bytes) mem)

  drop-copied : (n : ℕ) → at + length bytes ≤ n → drop n (copied mem at bytes) ≡ drop n mem
  drop-copied n h =
      sym (
        drop-drop (at + length bytes) (n - (at + length bytes)) n (copied mem at bytes)
          (omega arith))
      ∙ ap (drop (n - (at + length bytes))) (
          ap (λ k. drop k (copied mem at bytes)) (sym front)
          ∙ ap (drop (length (take at mem ++ bytes))) copied_is
          ∙ drop-append (take at mem ++ bytes) (drop (at + length bytes) mem))
      ∙ drop-drop (at + length bytes) (n - (at + length bytes)) n mem (omega arith)

  length-copied : length (copied mem at bytes) ≡ length mem
  length-copied = omega (
    arith,
    ap length copied_is,
    length-append (take at mem ++ bytes) (drop (at + length bytes) mem),
    front,
    length-drop (at + length bytes) mem,
  )

-- What has been made of the text: the memory before `buf_pos`, and `space`.
abbrev made : Decoding → List ℕ
made s = take s.buf_pos s.mem ++ s.space

-- The decoding is at `i` in a text that goes on with `rest`, and what it writes is behind it.
record IsAt (i : ℕ) (rest : List ℕ) (s : Decoding) : Type 0 where
  size : length s.mem ≡ i + length rest
  next : drop i s.mem ≡ rest
  behind : s.buf_pos + length s.space ≤ i
  roomy : length s.space < 127

digit_bytes_few : (phase prev_d d : ℕ) → length (digit_bytes phase prev_d d) ≤ 1
digit_bytes_few phase prev_d d = ground arith

-- A full `space` goes to the memory, and no octet that is still to be read changes.
flushed-IsAt :
    (i : ℕ) (rest : List ℕ) (s : Decoding)
    → length s.mem ≡ i + length rest
    → drop i s.mem ≡ rest
    → s.buf_pos + length s.space ≤ i
    → length s.space ≤ 127
    → IsAt i rest (flushed s)
      × (made (flushed s) ≡ made s)
      × ((flushed s).phase ≡ s.phase)
      × ((flushed s).prev_d ≡ s.prev_d)
unfolding flushed
flushed-IsAt i rest s size next behind roomy = elim (Bool-cases (length s.space == 127)) [
  | inr part ↦
      rw part (
        record { size = size; next = next; behind = behind; roomy = ground arith },
        refl,
        refl,
        refl,
      )
  | inl full ↦
      let inside : s.buf_pos + length s.space ≤ length s.mem = omega arith in
      let whole : length s.space ≡ 127 = ground arith in
      rw full (
        record {
          size = length-copied s.mem s.buf_pos s.space inside ∙ size;
          next = drop-copied s.mem s.buf_pos s.space inside i behind ∙ next;
          behind = omega arith;
          roomy = omega arith;
        },
        append-nil (take (s.buf_pos + 127) (copied s.mem s.buf_pos s.space))
            ∙ ap (λ n. take (s.buf_pos + n) (copied s.mem s.buf_pos s.space)) (sym whole)
            ∙ take-copied s.mem s.buf_pos s.space inside,
        refl,
        refl,
      )
]

round-none : (s : Decoding) (c : ℕ) → b64_decode c ≡ none → round s c ≡ flushed s
round-none s c e = unfold round in rw e

round-some : (s : Decoding) (c d : ℕ) → b64_decode c ≡ some d → round s c ≡ flushed (with_digit s d)
round-some s c d e = unfold round in rw e

-- What a decoding has made, and what it is still to make of a text.
abbrev whole : Decoding → List ℕ → List ℕ
whole s rest = made s ++ decoded s.phase s.prev_d rest

flushed-whole :
    (s : Decoding) (rest : List ℕ)
    → made (flushed s) ≡ made s
    → (flushed s).phase ≡ s.phase
    → (flushed s).prev_d ≡ s.prev_d
    → whole (flushed s) rest ≡ whole s rest
flushed-whole s rest m p q = rw (m, p, q)

decoded-none :
    (phase prev_d c : ℕ) (rest : List ℕ)
    → b64_decode c ≡ none
    → decoded phase prev_d (c ∷ rest) ≡ decoded phase prev_d rest
decoded-none phase prev_d c rest e = rw (decoded, e)

pub decoded-some :
    (phase prev_d c d : ℕ) (rest : List ℕ)
    → b64_decode c ≡ some d
    → decoded phase prev_d (c ∷ rest)
      ≡ digit_bytes phase prev_d d ++ decoded (next_phase phase) d rest
decoded-some phase prev_d c d rest e = rw (decoded, e)

whole-digit :
    (s : Decoding) (c d : ℕ) (rest : List ℕ)
    → b64_decode c ≡ some d
    → whole (with_digit s d) rest ≡ whole s (c ∷ rest)
whole-digit s c d rest e =
    ap (λ t. t ++ decoded (next_phase s.phase) d rest)
      (sym (append_assoc (take s.buf_pos s.mem) s.space (digit_bytes s.phase s.prev_d d)))
    ∙ append_assoc (made s) (digit_bytes s.phase s.prev_d d) (decoded (next_phase s.phase) d rest)
    ∙ ap (λ t. made s ++ t) (sym (decoded-some s.phase s.prev_d c d rest e))

-- A round reads an octet.
round-IsAt :
    (i c : ℕ) (rest : List ℕ) (s : Decoding)
    → IsAt i (c ∷ rest) s
    → IsAt (i + 1) rest (round s c) × (whole (round s c) rest ≡ whole s (c ∷ rest))
round-IsAt i c rest s is = elim (Option-cases (b64_decode c)) [
  | inl skipped ↦
      let (at, m, p, q) =
        flushed-IsAt (i + 1) rest s size (drop_first i s.mem c rest is.next).1
          (omega (arith, is.behind)) (omega (arith, is.roomy)) in
      rw (round-none s c skipped) (
        at,
        flushed-whole s rest m p q
            ∙ ap (λ t. made s ++ t) (sym (decoded-none s.phase s.prev_d c rest skipped)),
      )
  | inr (d, digit) ↦
      let more = length-append s.space (digit_bytes s.phase s.prev_d d) in
      let few = digit_bytes_few s.phase s.prev_d d in
      let (at, m, p, q) =
        flushed-IsAt (i + 1) rest (with_digit s d) size (drop_first i s.mem c rest is.next).1
          (omega (arith, is.behind)) (omega (arith, is.roomy)) in
      rw (round-some s c d digit)
        (at, flushed-whole (with_digit s d) rest m p q ∙ whole-digit s c d rest digit)
]
  where
    size : length s.mem ≡ i + 1 + length rest
    size = omega (arith, is.size)

loop-step :
    (left i c : ℕ) (s : Decoding)
    → get_elem? s.mem i ≡ some c
    → decode_loop (suc left) i s ≡ decode_loop left (i + 1) (round s c)
unfolding decode_loop
loop-step left i c s e = rw (decode_loop, e)

loop-IsAt :
    (rest : List ℕ) (i : ℕ) (s : Decoding)
    → IsAt i rest s
    → IsAt (i + length rest) [] (decode_loop (length rest) i s)
      × (whole (decode_loop (length rest) i s) [] ≡ whole s rest)
loop-IsAt [] i s is =
    let place : i + 0 ≡ i = omega arith in unfold decode_loop in rw place (is, refl)
loop-IsAt (c ∷ rest) i s is =
    let there = (drop_first i s.mem c rest is.next).0 in
    let (at, same) = round-IsAt i c rest s is in
    let (at', same') = loop-IsAt rest (i + 1) (round s c) at in
    let place : i + suc (length rest) ≡ i + 1 + length rest = omega arith in
    rw (loop-step (length rest) i c s there, place) (at', same' ∙ same)

pub decode_base64-decoded :
    (b : Buffer)
    → decode_base64 b ≡ record { bytes = decoded 0 0 b.bytes; has_memory = b.has_memory }
decode_base64-decoded b = by_bytes b.bytes
  where
    start : List ℕ → Decoding
    start xs = record { mem = xs; space = []; phase = 0; prev_d = 0; buf_pos = 0 }

    by_bytes :
        (xs : List ℕ)
        → decode_base64 (record { bytes = xs; has_memory = b.has_memory })
          ≡ record { bytes = decoded 0 0 xs; has_memory = b.has_memory }
    by_bytes [] = unfold decode_base64 Buffer.is_empty in refl
    by_bytes (x ∷ xs) =
        let s = decode_loop (length (x ∷ xs)) 0 (start (x ∷ xs)) in
        let (at, same) =
          loop-IsAt (x ∷ xs) 0 (start (x ∷ xs)) (record {
            size = omega arith;
            next = refl;
            behind = omega arith;
            roomy = omega arith;
          }) in
        let contents : take (s.buf_pos + length s.space) (copied s.mem s.buf_pos s.space)
            ≡ decoded 0 0 (x ∷ xs) =
          take-copied s.mem s.buf_pos s.space (omega (arith, at.size, at.behind))
          ∙ sym (append-nil (made s))
          ∙ same in
        let full : (suc (length xs) == 0) ≡ false = ground arith in
        unfold decode_base64 Buffer.is_empty in
        rw full
          (ap (λ t. let m : Buffer = record { bytes = t; has_memory = b.has_memory } in m) contents)
