-- ===== src/LinkedList/Tests.antt =====
-- The theorems on lists at three nodes.
use libhpack.Common.{refl, arith, [], ◌∷◌, ◌==◌, if◌then◌else◌}
use libhpack.LinkedList.{Links, add, add_tail, del}
use libhpack.LinkedList.Ring.{IsList, insertions-IsList}
use libhpack.LinkedList.Deletion.{del-IsList}

-- The head 0 with the nodes 1 and 2.
abbrev two_nodes : Links
two_nodes = record {
  next = λ i. if i == 0 then 1 else if i == 1 then 2 else 0;
  prev = λ i. if i == 0 then 2 else if i == 1 then 0 else 1;
}

two_nodes-IsList : IsList two_nodes 0 (1 ∷ 2 ∷ [])
two_nodes-IsList = record {
  linked = (refl, refl, (refl, refl, (refl, refl)));
  distinct = ((λ e. omega arith, (λ e. omega arith, tt)), ((λ e. omega arith, tt), (tt, tt)));
}

insertions-IsList_example :
    IsList (add two_nodes 3 0) 0 (3 ∷ 1 ∷ 2 ∷ [])
    × IsList (add_tail two_nodes 3 0) 0 (1 ∷ 2 ∷ 3 ∷ [])
insertions-IsList_example =
    insertions-IsList two_nodes 3 0 (1 ∷ 2 ∷ []) two_nodes-IsList
      (λ e. omega arith, (λ e. omega arith, (λ e. omega arith, tt)))

del-IsList_example : IsList (del two_nodes 1) 0 (2 ∷ [])
del-IsList_example = del-IsList two_nodes 0 [] 1 (2 ∷ []) two_nodes-IsList
