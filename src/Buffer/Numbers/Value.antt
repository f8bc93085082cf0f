-- ===== src/Buffer/Numbers/Value.antt =====
-- The digits of a number stand for it.
use libhpack.Common.{
  ℕ, zero, suc, ◌+◌, ◌-◌, ◌*◌, ◌/◌, ◌%◌, ◌^◌, ◌<◌, ◌≤◌, ◌≡◌, ◌∙◌, refl, sym, ap, arith,
}
use libhpack.Common.{
  Bool, List, [], ◌∷◌, ◌++◌, All, Bool-cases, inl, inr, ◌==◌, true, false, if◌then◌else◌, ltb,
}
use libhpack.Common.Run.{Run, done, ◌>>=◌}
use mathlib.Core.List.{append_assoc, append-nil}
use libhpack.Buffer
use libhpack.Buffer.{Buffer}
use libhpack.Buffer.Hex.{to_hex}
use libhpack.Buffer.Numbers.{digits_loop, decimal, add_ulong10, add_ulong16, add_signed, add_long10}
use native.Mathlib.Nat.{
  div-add-mod', div-lt_iff_lt-mul, mod-lt, mod-eq_of_lt, pow-zero, pow-le-pow_right, div-eq_of_lt,
  div-le_self, pow-suc,
}

-- The number that digits stand for, the first one being the highest.
abbrev pub number_from : ℕ → ℕ → List ℕ → ℕ
number_from base n [] = n
number_from base n (d ∷ ds) = number_from base (n * base + d) ds

abbrev pub spelled : (ℕ → ℕ) → List ℕ → List ℕ
spelled char [] = []
spelled char (d ∷ ds) = char d ∷ spelled char ds

abbrev StartsHigh : List ℕ → Type 0
StartsHigh [] = ⊥
StartsHigh (d ∷ ds) = 0 < d

-- The digits of a number in a base: they are digits, they stand for it, and only the number 0 starts
-- with the digit 0, and has no other.
pub record AreDigits (base n : ℕ) (ds : List ℕ) : Type 0 where
  pub digits : All (λ d. d < base) ds
  pub value : number_from base 0 ds ≡ n
  pub first : 0 < n → StartsHigh ds
  pub single : n ≡ 0 → ds ≡ 0 ∷ []

number_from-append :
    (base n : ℕ) (ds : List ℕ) (d : ℕ)
    → number_from base n (ds ++ (d ∷ [])) ≡ number_from base n ds * base + d
number_from-append base n [] d = refl
number_from-append base n (x ∷ ds) d = number_from-append base (n * base + x) ds d

spelled-append :
    (char : ℕ → ℕ) (ds : List ℕ) (d : ℕ)
    → spelled char (ds ++ (d ∷ [])) ≡ spelled char ds ++ (char d ∷ [])
spelled-append char [] d = refl
spelled-append char (x ∷ ds) d = ap (λ t. char x ∷ t) (spelled-append char ds d)

All-snoc :
    (base : ℕ) (ds : List ℕ) (d : ℕ)
    → All (λ x. x < base) ds
    → d < base
    → All (λ x. x < base) (ds ++ (d ∷ []))
All-snoc base [] d h hd = (hd, tt)
All-snoc base (x ∷ ds) d (hx, h) hd = (hx, All-snoc base ds d h hd)

StartsHigh-snoc : (ds : List ℕ) (d : ℕ) → StartsHigh ds → StartsHigh (ds ++ (d ∷ []))
StartsHigh-snoc [] d h = absurd h
StartsHigh-snoc (x ∷ ds) d h = h

-- The last round, and another one.
digits_loop-last :
    (base : ℕ) (char : ℕ → ℕ) (left n : ℕ) (text : List ℕ)
    → 1 < base
    → n / base ≡ 0
    → (ds : List ℕ) × (digits_loop base char (suc left) n text ≡ done (spelled char ds ++ text))
      × AreDigits base n ds
digits_loop-last base char left n text hb quotient =
    let split : n / base * base + n % base ≡ n = div-add-mod' n base in
    let value : 0 * base + n % base ≡ n = rw quotient at split in
    let last : (n / base == 0) ≡ true = ground arith in
    (
      n % base ∷ [],
      unfold digits_loop in rw last refl,
      record {
        digits = (mod-lt n (omega arith), tt);
        value = value;
        first = λ h. omega arith;
        single = λ e. let z : n % base ≡ 0 = omega arith in ap (λ d. d ∷ []) z;
      },
    )

digits_loop-more :
    (base : ℕ) (char : ℕ → ℕ) (left n : ℕ) (text ds : List ℕ)
    → 1 < base
    → 0 < n / base
    → digits_loop base char left (n / base) (char (n % base) ∷ text)
      ≡ done (spelled char ds ++ (char (n % base) ∷ text))
    → AreDigits base (n / base) ds
    → (digits_loop base char (suc left) n text
        ≡ done (spelled char (ds ++ (n % base ∷ [])) ++ text))
      × AreDigits base n (ds ++ (n % base ∷ []))
digits_loop-more base char left n text ds hb more run are =
    let split : n / base * base + n % base ≡ n = div-add-mod' n base in
    let going : (n / base == 0) ≡ false = ground arith in
    let step : digits_loop base char (suc left) n text
        ≡ done (spelled char ds ++ (char (n % base) ∷ text)) =
      unfold digits_loop in rw going run in
    (
      step
          ∙ ap done (
              sym (append_assoc (spelled char ds) (char (n % base) ∷ []) text)
              ∙ ap (λ t. t ++ text) (sym (spelled-append char ds (n % base)))),
      record {
        digits = All-snoc base ds (n % base) are.digits (mod-lt n (omega arith));
        value =
            number_from-append base 0 ds (n % base)
            ∙ ap (λ q. q * base + n % base) are.value
            ∙ split;
        first = λ h. StartsHigh-snoc ds (n % base) (are.first more);
        single = λ e. absurd (omega (arith, div-le_self n base));
      },
    )

-- The loop makes the digits, in front of the text that there is, if the places are enough.
digits_loop-AreDigits :
    (base : ℕ) (char : ℕ → ℕ) (left n : ℕ) (text : List ℕ)
    → 1 < base
    → n < base ^ suc left
    → (ds : List ℕ) × (digits_loop base char (suc left) n text ≡ done (spelled char ds ++ text))
      × AreDigits base n ds
digits_loop-AreDigits base char zero n text hb small = digits_loop-last base char zero n text hb (
    div-eq_of_lt
      (let h : n < base = omega (arith, rw (pow-suc base 0, pow-zero base) at small) in h))
digits_loop-AreDigits base char (suc left) n text hb small = elim (Bool-cases (n / base == 0)) [
  | inl last ↦ digits_loop-last base char (suc left) n text hb (ground arith)
  | inr going ↦
      let fits : n / base < base ^ suc left =
        (div-lt_iff_lt-mul {k = base} {x = n} {y = base ^ suc left} (omega arith)).1
          (rw (pow-suc base (suc left)) at small) in
      let (ds, run, are) =
        digits_loop-AreDigits base char left (n / base) (char (n % base) ∷ text) hb fits in
      let (run', are') =
        digits_loop-more base char (suc left) n text ds hb (ground arith) run are in
      (ds ++ (n % base ∷ []), run', are')
]

-- A number below 2 ^ 64 is added to a buffer as its digits, in decimal and in hexadecimal: nothing
-- is written outside the array that the digits are made in.
pub add_ulong-AreDigits :
    (b : Buffer) (n : ℕ)
    → n < 2 ^ 64
    → ((ds : List ℕ) × (add_ulong10 b n ≡ done (Buffer.add b (spelled decimal ds)))
        × AreDigits 10 n ds)
      × ((ds : List ℕ) × (add_ulong16 b n ≡ done (Buffer.add b (spelled to_hex ds)))
          × AreDigits 16 n ds)
unfolding add_ulong10 add_ulong16
add_ulong-AreDigits b n small =
    let (ds, run, are) = digits_loop-AreDigits 10 decimal 62 n [] (omega arith) (omega arith) in
    let (hs, run', are') = digits_loop-AreDigits 16 to_hex 62 n [] (omega arith) (omega arith) in
    ((ds, add_text (spelled decimal ds) run, are), (hs, add_text (spelled to_hex hs) run', are'))
  where
    add_text :
        {m : Run (List ℕ)} (text : List ℕ)
        → m ≡ done (text ++ [])
        → (m >>= (λ t. done (Buffer.add b t))) ≡ done (Buffer.add b text)
    add_text {m} text e =
        ap (λ x. x >>= (λ t. done (Buffer.add b t))) e
        ∙ ap (λ t. done (Buffer.add b t)) (append-nil text)

-- Whether a number is negative, from its bits, and its size decide what is added.
add_long10-sign :
    (w : ℕ) (b : Buffer) (bits size : ℕ) (is_negative : Bool) (text : List ℕ)
    → ltb (2 ^ (w - 1) - 1) bits ≡ is_negative
    → (if is_negative then (2 ^ w - bits) % 2 ^ w else bits) ≡ size
    → digits_loop 10 decimal 62 size [] ≡ done (text ++ [])
    → add_long10 w b bits ≡ done (Buffer.add b (if is_negative then 45 ∷ text else text))
add_long10-sign w b bits size is_negative text sign size_is run =
    unfolded
    ∙ ap
        (λ s.
          add_signed b s
            (digits_loop 10 decimal 62 (if s then (2 ^ w - bits) % 2 ^ w else bits) []))
        sign
    ∙ ap (λ n. add_signed b is_negative (digits_loop 10 decimal 62 n [])) size_is
    ∙ ap (add_signed b is_negative) (run ∙ ap done (append-nil text))
  where
    unfolded :
        add_long10 w b bits
        ≡ add_signed b (ltb (2 ^ (w - 1) - 1) bits) (
            digits_loop 10 decimal 62
              (if ltb (2 ^ (w - 1) - 1) bits then (2 ^ w - bits) % 2 ^ w else bits)
              [])
    unfolded = unfold add_long10 in refl

-- A signed number of `w` bits, up to 64, that is neither 0 nor the least one, is added as the digits
-- of its size, behind a sign if it is negative. Nothing is written outside the array.
pub add_long10-AreDigits :
    (w : ℕ) (b : Buffer) (size : ℕ)
    → 0 < w
    → w ≤ 64
    → 0 < size
    → size < 2 ^ (w - 1)
    → (ds : List ℕ) × (add_long10 w b size ≡ done (Buffer.add b (spelled decimal ds)))
      × (add_long10 w b (2 ^ w - size) ≡ done (Buffer.add b (45 ∷ spelled decimal ds)))
      × AreDigits 10 size ds
add_long10-AreDigits w b size h0 hw some_size small =
    let top : 2 ^ w ≡ 2 ^ (w - 1) * 2 = ap (λ k. 2 ^ k) (omega arith) ∙ pow-suc 2 (w - 1) in
    let most : 2 ^ w ≤ 2 ^ 64 = pow-le-pow_right {n = 2} (omega arith) {i = w} {j = 64} hw in
    let (ds, run, are) = digits_loop-AreDigits 10 decimal 61 size [] (omega arith) (omega arith) in
    let up : ltb (2 ^ (w - 1) - 1) size ≡ false = ground arith in
    let down : ltb (2 ^ (w - 1) - 1) (2 ^ w - size) ≡ true = ground arith in
    let back : (2 ^ w - (2 ^ w - size)) % 2 ^ w ≡ size = mod-eq_of_lt (omega arith) ∙ omega arith in
    (
      ds,
      add_long10-sign w b size size false (spelled decimal ds) up refl run,
      add_long10-sign w b (2 ^ w - size) size true (spelled decimal ds) down back run,
      are,
    )
