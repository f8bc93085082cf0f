-- ===== src/HeaderTable/Table/Marked.antt =====
-- The set of the positions that evictions tell.
use libhpack.Common.{ℕ, zero, suc, ◌+◌, ◌-◌, ◌%◌, ◌≤◌, ◌<◌, ◌≡◌, refl, arith, ◌∙◌, ap}
use libhpack.Common.{Bool, true, false, ltb, ◌||◌, ◌&&◌, Bool-cases, inl, inr}
use libhpack.BitmapSet
use libhpack.BitmapSet.{BitmapSet, all_ones}
use libhpack.BitmapSet.Member.{IsWords, exists-add}
use libhpack.BitmapSet.Algebra.{exists-fill}
use libhpack.BitmapSet.Words.{add-IsWords}
use libhpack.HeaderTable.Table.Shrink.{marked}

-- Position `i` is one of the `n` positions of a ring of 128 from `o` on.
abbrev pub is_within : ℕ → ℕ → ℕ → Bool
is_within o n i = ltb i 128 && ltb ((i + 128 - o) % 128) n

-- Marking positions adds them to the members, and no others.
pub exists-marked :
    (set : BitmapSet) (o n j : ℕ)
    → o < 128
    → n ≤ 128
    → BitmapSet.exists (marked set o n) j ≡ (BitmapSet.exists set j || is_within o n j)
exists-marked set o zero j ho hn = ground arith
exists-marked set o (suc n) j ho hn =
    let (_, here) = exists-add set o j in
    exists-marked (BitmapSet.add set o).1 ((o + 1) % 128) n j (omega arith) (omega arith)
    ∙ ground (arith, here)

pub marked-IsWords : (set : BitmapSet) (o n : ℕ) → IsWords set → IsWords (marked set o n)
marked-IsWords set o zero w = w
marked-IsWords set o (suc n) w =
    marked-IsWords (BitmapSet.add set o).1 ((o + 1) % 128) n (add-IsWords w o)

is_full-fill : (s : BitmapSet) → BitmapSet.is_full s ≡ true → BitmapSet.fill s ≡ s
unfolding BitmapSet.is_full BitmapSet.fill
is_full-fill s full =
    let w0 : s.entry0 ≡ all_ones = ground arith in
    let w1 : s.entry1 ≡ all_ones = ground arith in rw (w0, w1) refl

-- A set that lacks an index below 128 is not full.
pub is_full-exists :
    (s : BitmapSet) (j : ℕ) → j < 128 → BitmapSet.exists s j ≡ false → BitmapSet.is_full s ≡ false
is_full-exists s j hj out = elim (Bool-cases (BitmapSet.is_full s)) [
  | inr other ↦ other
  | inl full ↦
      let there = exists-fill s j in
      let same = ap (λ x. BitmapSet.exists x j) (is_full-fill s full) in absurd (ground arith)
]

-- The positions that are left of a ring's when its first `g` go and one more comes.
pub within_left :
    (o n g i : ℕ)
    → o < 128
    → n < 128
    → g ≤ n
    → is_within o n i ≡ true
    → is_within o g i ≡ false
    → is_within ((o + g) % 128) (n - g + 1) i ≡ true
within_left o n g i ho hn hg h out = ground arith

-- The position behind them is none of them, and the last of one more.
pub within_next :
    (o n : ℕ)
    → o < 128
    → n < 128
    → (is_within o n ((o + n) % 128) ≡ false) × (is_within o (n + 1) ((o + n) % 128) ≡ true)
within_next o n ho hn = (ground arith, ground arith)

pub within_kept :
    (o n g i : ℕ)
    → o < 128
    → n < 128
    → g ≤ n
    → is_within o n i ≡ true
    → is_within o g i ≡ false
    → is_within ((o + g) % 128) (n - g) i ≡ true
within_kept o n g i ho hn hg h out = ground arith
