-- ===== src/Buffer/Edit/Trim.antt =====
-- What is left of a buffer's contents without the blanks at its ends.
use libhpack.Common.{
  ℕ, zero, suc, ◌+◌, ◌-◌, ◌≡◌, ◌<◌, ◌≤◌, refl, ap, sym, ◌∙◌, arith, false, true, List, [], ◌∷◌,
  length, get_or,
}
use libhpack.Common.{take, drop, leb, ◌==◌, length-take, Bool-cases, inl, inr}
use libhpack.Buffer
use libhpack.Buffer.{Buffer}
use libhpack.Buffer.Edit.{is_blank, start_loop, end_loop, trim}

-- `start` bytes in front and all from `last` on are blanks, and the bytes between begin and end
-- with others, if there are any.
pub record AreEnds (xs : List ℕ) (start last : ℕ) : Type 0 where
  pub ordered : start ≤ last
  pub within : last ≤ length xs
  pub blank_front : (i : ℕ) → i < start → is_blank (get_or xs i 0) ≡ true
  pub blank_back : (i : ℕ) → last ≤ i → i < length xs → is_blank (get_or xs i 0) ≡ true
  pub first_stays : start < length xs → is_blank (get_or xs start 0) ≡ false
  pub last_stays : start < last → is_blank (get_or xs (last - 1) 0) ≡ false

start_loop_front : (xs : List ℕ) (i : ℕ) → i < start_loop xs → is_blank (get_or xs i 0) ≡ true
unfolding start_loop
start_loop_front [] i h = absurd (omega arith)
start_loop_front (x ∷ xs) zero h = elim (Bool-cases (is_blank x)) [
  | inl blank ↦ blank
  | inr other ↦ let none_in : start_loop (x ∷ xs) ≡ 0 = rw other refl in absurd (omega arith)
]
start_loop_front (x ∷ xs) (suc i) h = elim (Bool-cases (is_blank x)) [
  | inl blank ↦
      let more : start_loop (x ∷ xs) ≡ suc (start_loop xs) = rw blank refl in
      start_loop_front xs i (omega arith)
  | inr other ↦ let none_in : start_loop (x ∷ xs) ≡ 0 = rw other refl in absurd (omega arith)
]

start_loop_stops :
    (xs : List ℕ)
    → (start_loop xs ≤ length xs)
      × (start_loop xs < length xs → is_blank (get_or xs (start_loop xs) 0) ≡ false)
unfolding start_loop
start_loop_stops [] = (omega arith, λ h. absurd (omega arith))
start_loop_stops (x ∷ xs) = elim (Bool-cases (is_blank x)) [
  | inl blank ↦
      rw blank (omega (arith, (start_loop_stops xs).0), λ h. (start_loop_stops xs).1 (omega arith))
  | inr other ↦ rw other (omega arith, λ h. other)
]

end_loop_back :
    (rounds : ℕ) (xs : List ℕ) (e : ℕ)
    → e + rounds ≤ length xs
    → ((i : ℕ) → length xs - e ≤ i → i < length xs → is_blank (get_or xs i 0) ≡ true)
    → (e ≤ end_loop rounds xs e)
      × (end_loop rounds xs e ≤ e + rounds)
      × ((i : ℕ)
          → length xs - end_loop rounds xs e ≤ i
          → i < length xs
          → is_blank (get_or xs i 0) ≡ true)
      × (end_loop rounds xs e < e + rounds
          → is_blank (get_or xs (length xs - suc (end_loop rounds xs e)) 0) ≡ false)
unfolding end_loop
end_loop_back zero xs e h back = (omega arith, omega arith, back, λ more. absurd (omega arith))
end_loop_back (suc rounds) xs e h back =
    elim (Bool-cases (is_blank (get_or xs (length xs - suc e) 0))) [
      | inl blank ↦
          let back' : (i : ℕ)
              → length xs - suc e ≤ i
              → i < length xs
              → is_blank (get_or xs i 0) ≡ true =
            λ i low high. elim (Bool-cases (leb (length xs - e) i)) [
              | inl old ↦ back i (ground arith) high
              | inr new ↦ let same : i ≡ length xs - suc e = ground arith in rw same blank
            ] in
          let (least, most, blanks, stop) = end_loop_back rounds xs (suc e) (omega arith) back' in
          rw blank (omega arith, omega arith, blanks, λ more. stop (omega arith))
      | inr other ↦ rw other (omega arith, omega arith, back, λ more. other)
    ]

no_bytes : (xs : List ℕ) → length xs ≡ 0 → xs ≡ []
no_bytes [] e = refl
no_bytes (x ∷ xs) e = absurd (omega arith)

-- What is left of the contents is what stands between the blanks in front and those at the end:
-- it neither begins nor ends with a blank.
pub trim-AreEnds :
    (b : Buffer)
    → (start : ℕ) × (last : ℕ) × AreEnds b.bytes start last
      × ((trim b).bytes ≡ take (last - start) (drop start b.bytes))
unfolding trim Buffer.is_empty
trim-AreEnds b =
    let xs = b.bytes in
    let s = start_loop xs in
    let e = end_loop (length xs - s) xs 0 in
    let (in_front, stops) = start_loop_stops xs in
    let (least, most, blanks, stop) =
      end_loop_back (length xs - s) xs 0 (omega arith) (λ i low high. absurd (omega arith)) in
    let between : length xs - e - s ≡ length xs - (s + e) = omega arith in
    (
      s,
      length xs - e,
      record {
        ordered = omega arith;
        within = omega arith;
        blank_front = start_loop_front xs;
        blank_back = blanks;
        first_stays = stops;
        last_stays = λ more.
            let last_at : length xs - e - 1 ≡ length xs - suc e = omega arith in
            rw last_at (stop (omega arith));
      },
      elim (Bool-cases (length xs == 0)) [
        | inl empty ↦
            let none_left : xs ≡ [] = no_bytes xs (ground arith) in
            let size = length-take (length xs - e - s) (drop s xs) in
            rw empty (
              none_left
              ∙ sym (no_bytes (take (length xs - e - s) (drop s xs)) (ground (arith, size))))
        | inr some_left ↦ rw some_left (ap (λ n. take n (drop s xs)) (sym between))
      ],
    )
