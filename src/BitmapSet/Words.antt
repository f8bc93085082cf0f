-- ===== src/BitmapSet/Words.antt =====
-- Every operation keeps the entries of a set within their words.
use libhpack.Common.{ℕ, ◌-◌, ◌%◌, ◌^◌, arith, Bool}
use libhpack.Common.{bit_or_lt, bit_and-le}
use libhpack.BitmapSet.{
  BitmapSet, add, remove, all_ones, clear, fill, init, union, relative_comp, intersection,
  complement, clone,
}
use libhpack.BitmapSet.Member.{IsWords, place_lem, pow-lt-word}

module _ {s t : BitmapSet} (ws : IsWords s) (wt : IsWords t) where
  pub union-IsWords : IsWords (union s t)
  unfolding union
  union-IsWords = ground (
    arith,
    bit_or_lt 64 s.entry0 t.entry0 ws.word0 wt.word0,
    bit_or_lt 64 s.entry1 t.entry1 ws.word1 wt.word1,
  )

  pub intersection-IsWords : IsWords (intersection s t)
  unfolding intersection
  intersection-IsWords = ground (arith, bit_and-le s.entry0 t.entry0, bit_and-le s.entry1 t.entry1)

  pub relative_comp-IsWords : IsWords (relative_comp s t)
  unfolding relative_comp
  relative_comp-IsWords =
      ground (
        arith,
        bit_and-le s.entry0 (all_ones - t.entry0),
        bit_and-le s.entry1 (all_ones - t.entry1),
      )

  pub clone-IsWords : IsWords (clone s t)
  unfolding clone
  clone-IsWords = ground arith

module _ {s : BitmapSet} (ws : IsWords s) where
  pub add-IsWords : (i : ℕ) → IsWords (add s i).1
  unfolding add
  add-IsWords i = ground (
    arith,
    place_lem i,
    bit_or_lt 64 s.entry0 (2 ^ (i % 64)) ws.word0 (pow-lt-word (i % 64) (omega arith)),
    bit_or_lt 64 s.entry1 (2 ^ (i % 64)) ws.word1 (pow-lt-word (i % 64) (omega arith)),
  )

  pub remove-IsWords : (i : ℕ) → IsWords (remove s i).1
  unfolding remove
  remove-IsWords i = ground (
    arith,
    place_lem i,
    bit_and-le s.entry0 (all_ones - 2 ^ (i % 64)),
    bit_and-le s.entry1 (all_ones - 2 ^ (i % 64)),
  )

  pub complement-IsWords : IsWords (complement s)
  unfolding complement
  complement-IsWords = ground arith

pub init-IsWords : (s : BitmapSet) (fill_set : Bool) → IsWords (init s fill_set)
unfolding init
init-IsWords s fill_set = ground arith

pub clear-IsWords : (s : BitmapSet) → IsWords (clear s)
unfolding clear
clear-IsWords s = ground arith

pub fill-IsWords : (s : BitmapSet) → IsWords (fill s)
unfolding fill
fill-IsWords s = ground arith
