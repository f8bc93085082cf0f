-- ===== src/LinkedList/Ring.antt =====
-- What the nodes of a list are, and what the operations make of them.
use libhpack.Common.{
  ℕ, zero, suc, ◌+◌, ◌%◌, ◌^◌, ◌<◌, ◌≡◌, ◌≢◌, refl, sym, ap, ◌∙◌, arith, true, false, List, [], ◌∷◌,
  ◌++◌, length, All, ◌==◌,
}
use libhpack.Common.Ret.{ok}
use libhpack.Common.Run.{done}
use mathlib.Core.Path.{subst}
use libhpack.LinkedList.{Links, set, add, add_tail, len_loop, get_len}

pub set_same : (p : ℕ → ℕ) (n v : ℕ) → set p n v n ≡ v
set_same p n v = let e : (n == n) ≡ true = ground arith in rw e refl

pub set_other : (p : ℕ → ℕ) (n v i : ℕ) → i ≢ n → set p n v i ≡ p i
set_other p n v i h = let e : (i == n) ≡ false = ground arith in rw e refl

-- From `a` through the nodes of a list to `b`, the pointers in both directions.
abbrev pub Linked : Links → ℕ → List ℕ → ℕ → Type 0
Linked s a [] b = (s.next a ≡ b) × (s.prev b ≡ a)
Linked s a (x ∷ xs) b = (s.next a ≡ x) × (s.prev x ≡ a) × Linked s x xs b

-- `n` is none of the nodes.
abbrev pub IsFresh : ℕ → List ℕ → Type 0
IsFresh n xs = All (λ x. x ≢ n) xs

-- No node stands twice.
abbrev pub IsDistinct : List ℕ → Type 0
IsDistinct [] = Unit
IsDistinct (x ∷ xs) = IsFresh x xs × IsDistinct xs

-- A list with the head `head` and the nodes `xs`, all of them different.
pub record IsList (s : Links) (head : ℕ) (xs : List ℕ) : Type 0 where
  pub linked : Linked s head xs head
  pub distinct : IsDistinct (head ∷ xs)

-- Two pointers set, and the nodes that keep theirs.
All-set :
    (p : ℕ → ℕ) (n v m w : ℕ) (ys : List ℕ)
    → IsFresh n ys
    → IsFresh m ys
    → All (λ i. set (set p n v) m w i ≡ p i) ys
All-set p n v m w [] hn hm = tt
All-set p n v m w (y ∷ ys) (hn, hns) (hm, hms) =
    (set_other (set p n v) m w y hm ∙ set_other p n v y hn, All-set p n v m w ys hns hms)

-- A chain depends on the pointers forward of the nodes before its end, and on the pointers back of
-- those behind its start.
pub Linked-frame :
    (s s' : Links) (a : ℕ) (xs : List ℕ) (b : ℕ)
    → All (λ i. s'.next i ≡ s.next i) (a ∷ xs)
    → All (λ i. s'.prev i ≡ s.prev i) (xs ++ (b ∷ []))
    → Linked s a xs b
    → Linked s' a xs b
Linked-frame s s' a [] b (n, _) (p, _) (e1, e2) = (n ∙ e1, p ∙ e2)
Linked-frame s s' a (x ∷ xs) b (n, ns) (p, ps) (e1, e2, rest) =
    (n ∙ e1, p ∙ e2, Linked-frame s s' x xs b ns ps rest)

pub IsFresh-append : (n : ℕ) (xs ys : List ℕ) → IsFresh n xs → IsFresh n ys → IsFresh n (xs ++ ys)
IsFresh-append n [] ys h k = k
IsFresh-append n (x ∷ xs) ys (h, hs) k = (h, IsFresh-append n xs ys hs k)

pub differs : {a b : ℕ} → a ≢ b → b ≢ a
differs h e = h (sym e)

-- A pointer that is set, by an equation for where it stands.
pub set_at : (p : ℕ → ℕ) (n v i : ℕ) → n ≡ i → set p n v i ≡ v
set_at p n v i e = ap (set p n v) (sym e) ∙ set_same p n v

-- A new node becomes the first one.
add-IsList :
    (s : Links) (new head : ℕ) (xs : List ℕ)
    → IsList s head xs
    → IsFresh new (head ∷ xs)
    → IsList (add s new head) head (new ∷ xs)
unfolding add
add-IsList s new head xs h (hh, hx) = record {
  linked = (
    set_same (set s.next new (s.next head)) head new,
    set_other (set s.prev new head) t new new (λ e. first xs h.linked hx (sym at ∙ sym e))
        ∙ set_same s.prev new head,
    tail xs h.linked h.distinct hx,
  );
  distinct = ((differs hh, h.distinct.0), (hx, h.distinct.1));
}
  where
    t : ℕ
    t = set s.next new (s.next head) head

    at : t ≡ s.next head
    at = set_other s.next new (s.next head) head hh

    first : (xs : List ℕ) → Linked s head xs head → IsFresh new xs → s.next head ≢ new
    first [] (e1, e2) hx e = hh (sym e1 ∙ e)
    first (x ∷ xs) (e1, e2, rest) (k, ks) e = k (sym e1 ∙ e)

    second : set (set s.next new (s.next head)) head new new ≡ s.next head
    second =
        set_other (set s.next new (s.next head)) head new new (differs hh)
        ∙ set_same s.next new (s.next head)

    tail :
        (xs : List ℕ)
        → Linked s head xs head
        → IsDistinct (head ∷ xs)
        → IsFresh new xs
        → Linked (add s new head) new xs head
    tail [] (e1, e2) d hx = (second ∙ e1, set_at (set s.prev new head) t new head (at ∙ e1))
    tail (x ∷ xs) (e1, e2, rest) (dh, (dx, dxs)) (k, ks) = (
      second ∙ e1,
      set_at (set s.prev new head) t new x (at ∙ e1),
      Linked-frame s (add s new head) x xs head
          (All-set s.next new (s.next head) head new (x ∷ xs) (k, ks) dh)
          (All-set s.prev new head t new (xs ++ (head ∷ []))
            (IsFresh-append new xs (head ∷ []) ks (hh, tt))
            (subst (λ i. IsFresh i (xs ++ (head ∷ []))) (sym (at ∙ e1))
              (IsFresh-append x xs (head ∷ []) dx (differs dh.0, tt))))
          rest,
    )

-- The node before the end of a chain is one of it.
prev_in :
    (P : ℕ → Type 0) (s : Links) (a : ℕ) (xs : List ℕ) (b : ℕ)
    → Linked s a xs b
    → All P (a ∷ xs)
    → P (s.prev b)
prev_in P s a [] b (e1, e2) (h, _) = subst P (sym e2) h
prev_in P s a (x ∷ xs) b (e1, e2, rest) (h, hs) = prev_in P s x xs b rest hs

IsDistinct-append :
    (xs : List ℕ) (n : ℕ) → IsDistinct xs → IsFresh n xs → IsDistinct (xs ++ (n ∷ []))
IsDistinct-append [] n d h = (tt, tt)
IsDistinct-append (x ∷ xs) n (dx, dxs) (h, hs) =
    (IsFresh-append x xs (n ∷ []) dx (differs h, tt), IsDistinct-append xs n dxs hs)

-- The pointers after `new` has come in before `b`.
module _ (s s' : Links) (new b : ℕ)
    (nexts : (i : ℕ) → s'.next i ≡ set (set s.next new b) (s.prev b) new i)
    (prevs : (i : ℕ) → s'.prev i ≡ set (set s.prev new (s.prev b)) b new i) (hb : b ≢ new) where
  before_end :
      (a : ℕ) (xs : List ℕ)
      → Linked s a xs b
      → IsDistinct (a ∷ xs)
      → IsFresh new (a ∷ xs)
      → IsFresh b xs
      → Linked s' a (xs ++ (new ∷ [])) b
  before_end a [] (e1, e2) d (h, _) hx = (
    nexts a ∙ set_at (set s.next new b) (s.prev b) new a e2,
    prevs new
        ∙ set_other (set s.prev new (s.prev b)) b new new (differs hb)
        ∙ set_same s.prev new (s.prev b)
        ∙ e2,
    (
      nexts new
          ∙ set_other (set s.next new b) (s.prev b) new new (λ e. h (sym e2 ∙ sym e))
          ∙ set_same s.next new b,
      prevs b ∙ set_same (set s.prev new (s.prev b)) b new,
    ),
  )
  before_end a (x ∷ xs) (e1, e2, rest) (da, d) (h, (k, ks)) (bx, bxs) = (
    nexts a
        ∙ set_other (set s.next new b) (s.prev b) new a
            (differs (prev_in (λ i. i ≢ a) s x xs b rest da))
        ∙ set_other s.next new b a h
        ∙ e1,
    prevs x
        ∙ set_other (set s.prev new (s.prev b)) b new x bx
        ∙ set_other s.prev new (s.prev b) x k
        ∙ e2,
    before_end x xs rest d (k, ks) bxs,
  )

-- A new node becomes the last one.
add_tail-IsList :
    (s : Links) (new head : ℕ) (xs : List ℕ)
    → IsList s head xs
    → IsFresh new (head ∷ xs)
    → IsList (add_tail s new head) head (xs ++ (new ∷ []))
unfolding add_tail
add_tail-IsList s new head xs h (hh, hx) = record {
  linked =
      before_end s (add_tail s new head) new head
        (λ i.
          ap (λ k. set (set s.next new head) k new i) (set_other s.prev new (s.prev head) head hh))
        (λ i. refl) hh head xs h.linked h.distinct (hh, hx) h.distinct.0;
  distinct = (
    IsFresh-append head xs (new ∷ []) h.distinct.0 (differs hh, tt),
    IsDistinct-append xs new h.distinct.1 hx,
  );
}

-- The number of nodes, in rounds that are more than they are.
len_loop-Linked :
    (s : Links) (head a : ℕ) (xs : List ℕ) (rounds n : ℕ)
    → Linked s a xs head
    → IsFresh head xs
    → length xs < rounds
    → n + length xs < 2 ^ 32
    → len_loop rounds s head (s.next a) n ≡ done (n + length xs)
unfolding len_loop
len_loop-Linked s head a xs zero n l h enough room = absurd (omega arith)
len_loop-Linked s head a [] (suc rounds) n (e1, e2) h enough room =
    let here : (s.next a == head) ≡ true = ground (arith, e1) in rw here (ap done (omega arith))
len_loop-Linked s head a (x ∷ xs) (suc rounds) n (e1, e2, rest) (k, ks) enough room =
    let more : (x == head) ≡ false = ground arith in
    let sum : (n + 1) % 2 ^ 32 ≡ n + 1 = omega arith in
    rw (e1, more, sum)
      (len_loop-Linked s head x xs rounds (n + 1) rest ks (omega arith) (omega arith)
        ∙ ap done (omega arith))

-- In a list of fewer than 2 ^ 32 nodes, `chula_list_get_len` ends within one round more than there
-- are nodes, and returns their number.
pub get_len-IsList :
    (s : Links) (head : ℕ) (xs : List ℕ) (rounds : ℕ)
    → IsList s head xs
    → length xs < rounds
    → length xs < 2 ^ 32
    → get_len rounds s head ≡ done (ok, length xs)
unfolding get_len
get_len-IsList s head xs rounds h enough room =
    let e = len_loop-Linked s head head xs rounds 0 h.linked h.distinct.0 enough (omega arith) in
    rw e (ap (λ n. done (ok, n)) (omega arith))

-- A node that is not in a list, `chula_list_add` puts before its nodes and `chula_list_add_tail`
-- behind them: the pointers in both directions then go through all of them, in that order.
pub insertions-IsList :
    (s : Links) (new head : ℕ) (xs : List ℕ)
    → IsList s head xs
    → IsFresh new (head ∷ xs)
    → IsList (add s new head) head (new ∷ xs) × IsList (add_tail s new head) head (xs ++ (new ∷ []))
insertions-IsList s new head xs h hx =
    (add-IsList s new head xs h hx, add_tail-IsList s new head xs h hx)
