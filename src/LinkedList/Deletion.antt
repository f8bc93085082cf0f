-- ===== src/LinkedList/Deletion.antt =====
-- Taking a node out of a list.
use libhpack.Common.{ℕ, ◌≡◌, ◌≢◌, refl, sym, ap, ◌∙◌, List, [], ◌∷◌, ◌++◌, All}
use libhpack.LinkedList.Ring.{
  set_other, set_at, differs, IsFresh-append, Linked, IsFresh, IsDistinct, IsList, Linked-frame,
}
use mathlib.Core.Path.{subst}
use libhpack.LinkedList.{Links, set, del}

-- The node before one in a chain, and the one behind it.
prev_mid :
    (P : ℕ → Type 0) (s : Links) (a : ℕ) (xs : List ℕ) (n : ℕ) (ys : List ℕ) (b : ℕ)
    → Linked s a (xs ++ (n ∷ ys)) b
    → All P (a ∷ xs)
    → P (s.prev n)
prev_mid P s a [] n ys b (e1, e2, rest) (h, _) = subst P (sym e2) h
prev_mid P s a (x ∷ xs) n ys b (e1, e2, rest) (h, hs) = prev_mid P s x xs n ys b rest hs

next_mid :
    (P : ℕ → Type 0) (s : Links) (a : ℕ) (xs : List ℕ) (n : ℕ) (ys : List ℕ) (b : ℕ)
    → Linked s a (xs ++ (n ∷ ys)) b
    → All P (ys ++ (b ∷ []))
    → P (s.next n)
next_mid P s a [] n [] b (e1, e2, (e3, e4)) (h, _) = subst P (sym e3) h
next_mid P s a [] n (y ∷ ys) b (e1, e2, (e3, e4, rest)) (h, _) = subst P (sym e3) h
next_mid P s a (x ∷ xs) n ys b (e1, e2, rest) h = next_mid P s x xs n ys b rest h

-- Of different nodes, those in front and those behind.
All-front : (P : ℕ → Type 0) (xs : List ℕ) (n : ℕ) (ys : List ℕ) → All P (xs ++ (n ∷ ys)) → All P xs
All-front P [] n ys h = tt
All-front P (x ∷ xs) n ys (h, hs) = (h, All-front P xs n ys hs)

All-behind :
    (P : ℕ → Type 0) (xs : List ℕ) (n : ℕ) (ys : List ℕ) → All P (xs ++ (n ∷ ys)) → All P ys
All-behind P [] n ys (h, hs) = hs
All-behind P (x ∷ xs) n ys (h, hs) = All-behind P xs n ys hs

All-here : (P : ℕ → Type 0) (xs : List ℕ) (n : ℕ) (ys : List ℕ) → All P (xs ++ (n ∷ ys)) → P n
All-here P [] n ys (h, hs) = h
All-here P (x ∷ xs) n ys (h, hs) = All-here P xs n ys hs

IsDistinct-behind : (xs : List ℕ) (n : ℕ) (ys : List ℕ) → IsDistinct (xs ++ (n ∷ ys)) → IsFresh n ys
IsDistinct-behind [] n ys (d, ds) = d
IsDistinct-behind (x ∷ xs) n ys (d, ds) = IsDistinct-behind xs n ys ds

All-without :
    (P : ℕ → Type 0) (xs : List ℕ) (n : ℕ) (ys : List ℕ) → All P (xs ++ (n ∷ ys)) → All P (xs ++ ys)
All-without P [] n ys (h, hs) = hs
All-without P (x ∷ xs) n ys (h, hs) = (h, All-without P xs n ys hs)

IsDistinct-without :
    (xs : List ℕ) (n : ℕ) (ys : List ℕ) → IsDistinct (xs ++ (n ∷ ys)) → IsDistinct (xs ++ ys)
IsDistinct-without [] n ys (d, ds) = ds
IsDistinct-without (x ∷ xs) n ys (d, ds) =
    (All-without (λ i. i ≢ x) xs n ys d, IsDistinct-without xs n ys ds)

All-set_one : (p : ℕ → ℕ) (n v : ℕ) (ys : List ℕ) → IsFresh n ys → All (λ i. set p n v i ≡ p i) ys
All-set_one p n v [] h = tt
All-set_one p n v (y ∷ ys) (h, hs) = (set_other p n v y h, All-set_one p n v ys hs)

All-along :
    (p q r : ℕ → ℕ) (ys : List ℕ)
    → ((i : ℕ) → p i ≡ q i)
    → All (λ i. q i ≡ r i) ys
    → All (λ i. p i ≡ r i) ys
All-along p q r [] e h = tt
All-along p q r (y ∷ ys) e (h, hs) = (e y ∙ h, All-along p q r ys e hs)

-- The pointers after `n` has gone.
module _ (s s' : Links) (n b : ℕ) (ys : List ℕ)
    (nexts : (i : ℕ) → s'.next i ≡ set s.next (s.prev n) (s.next n) i)
    (prevs : (i : ℕ) → s'.prev i ≡ set s.prev (s.next n) (s.prev n) i) where
  without :
      (a : ℕ) (xs : List ℕ)
      → Linked s a (xs ++ (n ∷ ys)) b
      → IsDistinct (a ∷ (xs ++ (n ∷ ys)))
      → IsFresh b (xs ++ (n ∷ ys))
      → Linked s' a (xs ++ ys) b
  without a (x ∷ xs) (e1, e2, rest) (da, (dx, d)) (bx, bxs) = (
    nexts a
        ∙ set_other s.next (s.prev n) (s.next n) a (
            differs
              (prev_mid (λ i. i ≢ a) s x xs n ys b rest (All-front (λ i. i ≢ a) (x ∷ xs) n ys da)))
        ∙ e1,
    prevs x
        ∙ set_other s.prev (s.next n) (s.prev n) x (
            differs (
              next_mid (λ i. i ≢ x) s x xs n ys b rest
                (IsFresh-append x ys (b ∷ []) (All-behind (λ i. i ≢ x) xs n ys dx)
                  (differs bx, tt))))
        ∙ e2,
    without x xs rest (dx, d) bxs,
  )
  without a [] (e1, e2, rest) (da, (dn, d)) bn = at_start ys rest d da.1 bn.1
    where
      at_start :
          (ys : List ℕ)
          → Linked s n ys b
          → IsDistinct ys
          → IsFresh a ys
          → IsFresh b ys
          → Linked s' a ys b
      at_start [] (e3, e4) d da bn = (
        nexts a ∙ set_at s.next (s.prev n) (s.next n) a e2 ∙ e3,
        prevs b ∙ set_at s.prev (s.next n) (s.prev n) b e3 ∙ e2,
      )
      at_start (y ∷ ys) (e3, e4, rest) (dy, d) da (by, bys) = (
        nexts a ∙ set_at s.next (s.prev n) (s.next n) a e2 ∙ e3,
        prevs y ∙ set_at s.prev (s.next n) (s.prev n) y e3 ∙ e2,
        Linked-frame s s' y ys b
            (All-along s'.next _ s.next (y ∷ ys) nexts (
              All-set_one s.next (s.prev n) (s.next n) (y ∷ ys)
                (subst (λ i. IsFresh i (y ∷ ys)) (sym e2) da)))
            (All-along s'.prev _ s.prev (ys ++ (b ∷ [])) prevs (
              All-set_one s.prev (s.next n) (s.prev n) (ys ++ (b ∷ [])) (
                subst (λ i. IsFresh i (ys ++ (b ∷ []))) (sym e3)
                  (IsFresh-append y ys (b ∷ []) dy (differs by, tt)))))
            rest,
      )

-- A node that `chula_list_del` takes out of a list leaves the others in their order, with the
-- pointers in both directions going through all of them.
pub del-IsList :
    (s : Links) (head : ℕ) (xs : List ℕ) (n : ℕ) (ys : List ℕ)
    → IsList s head (xs ++ (n ∷ ys))
    → IsList (del s n) head (xs ++ ys)
unfolding del
del-IsList s head xs n ys h = record {
  linked =
      without s (del s n) n head ys
        (λ i.
          ap (λ k. set s.next k (s.next n) i)
            (set_other s.prev (s.next n) (s.prev n) n (differs moves)))
        (λ i. refl) head xs h.linked h.distinct h.distinct.0;
  distinct =
      (All-without (λ i. i ≢ head) xs n ys h.distinct.0, IsDistinct-without xs n ys h.distinct.1);
}
  where
    moves : s.next n ≢ n
    moves =
        next_mid (λ i. i ≢ n) s head xs n ys head h.linked
          (IsFresh-append n ys (head ∷ []) (IsDistinct-behind xs n ys h.distinct.1)
            (differs (All-here (λ i. i ≢ head) xs n ys h.distinct.0), tt))
