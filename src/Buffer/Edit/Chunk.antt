-- ===== src/Buffer/Edit/Chunk.antt =====
-- A piece of a buffer's contents that is taken out.
use libhpack.Common.{
  ℕ, zero, suc, ◌+◌, ◌-◌, ◌^◌, ◌≡◌, ◌<◌, ◌≤◌, ◌↔◌, ◌⊎◌, refl, ap, sym, ◌∙◌, arith, false, List, [],
  ◌∷◌, ◌++◌, length,
}
use libhpack.Common.{
  take, drop, min, leb, ◌==◌, ◌&&◌, length-append, length-take, length-drop, Bool-cases, inl, inr,
}
use libhpack.Buffer
use libhpack.Buffer.{Buffer}
use libhpack.Buffer.Edit.{remove_chunk}

drop_beyond : (n : ℕ) (xs : List ℕ) → length xs ≤ n → drop n xs ≡ []
drop_beyond zero [] h = refl
drop_beyond zero (x ∷ xs) h = absurd (omega arith)
drop_beyond (suc n) [] h = refl
drop_beyond (suc n) (x ∷ xs) h = drop_beyond n xs (omega arith)

drop-min : (n : ℕ) (xs : List ℕ) → drop (min n (length xs)) xs ≡ drop n xs
drop-min n xs = elim (Bool-cases (leb n (length xs))) [
  | inl within ↦ let n_is : min n (length xs) ≡ n = ground arith in ap (λ k. drop k xs) n_is
  | inr beyond ↦
      let all : min n (length xs) ≡ length xs = ground arith in
      ap (λ k. drop k xs) all
      ∙ drop_beyond (length xs) xs (omega arith)
      ∙ sym (drop_beyond n xs (ground arith))
]

-- Of a chunk that begins within the contents, the memory loses what the contents have. The length
-- that is stored is that of what is left exactly if the chunk ends within the contents or begins
-- with them. The lengths are 32-bit numbers.
pub remove_chunk_left :
    (b : Buffer) (from n : ℕ)
    → from < length b.bytes
    → length b.bytes < 2 ^ 32
    → n < 2 ^ 32
    → ((remove_chunk b from n).memory.bytes ≡ take from b.bytes ++ drop (from + n) b.bytes)
      × (((remove_chunk b from n).len ≡ length (remove_chunk b from n).memory.bytes)
          ↔ ((from + n ≤ length b.bytes) ⊎ (from ≡ 0)))
unfolding remove_chunk Buffer.clean
remove_chunk_left b from n h hb hn =
    let begins : leb (length b.bytes) from ≡ false = ground arith in
    elim (Bool-cases ((from == 0) && leb (length b.bytes) n)) [
      | inl all ↦
          let starts : from ≡ 0 = ground arith in
          rw (begins, all)
            (
              sym (rw starts (drop_beyond (0 + n) b.bytes (ground arith))),
              (λ same. inr starts, λ ends. refl),
            )
      | inr piece ↦
          let size : length (take from b.bytes ++ drop (min (from + n) (length b.bytes)) b.bytes)
              ≡ from + (length b.bytes - min (from + n) (length b.bytes)) =
            omega (
              arith,
              length-append (take from b.bytes) (drop (min (from + n) (length b.bytes)) b.bytes),
              length-take from b.bytes,
              length-drop (min (from + n) (length b.bytes)) b.bytes,
            ) in
          rw (begins, piece)
            (
              ap (λ ys. take from b.bytes ++ ys) (drop-min (from + n) b.bytes),
              rw size (λ same. inl (ground arith), λ ends. ground arith),
            )
    ]
