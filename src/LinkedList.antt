-- ===== src/LinkedList.antt =====
-- libchula/list.h and list.c: circular lists of nodes that point to one another. A node is a number,
-- its address; the pointers of all nodes are the state.
pub mod Ring
pub mod Deletion
mod Tests
use libhpack.Common.{ℕ, zero, suc, ◌+◌, ◌%◌, ◌^◌, Bool, ◌==◌, if◌then◌else◌}
use libhpack.Common.Ret.{Ret, ok}
use libhpack.Common.Run.{Run, done, stuck, ◌>>=◌}

-- `struct list_entry`, of every node.
pub record Links : Type 0 where
  pub next : ℕ → ℕ
  pub prev : ℕ → ℕ

-- One pointer set.
abbrev pub set : (ℕ → ℕ) → ℕ → ℕ → ℕ → ℕ
set pointers node to i = if i == node then to else pointers i

abbrev pub set_next : Links → ℕ → ℕ → Links
set_next s node to = record { next = set s.next node to; prev = s.prev }

abbrev pub set_prev : Links → ℕ → ℕ → Links
set_prev s node to = record { next = s.next; prev = set s.prev node to }

-- `INIT_LIST_HEAD`
unfoldable pub init : Links → ℕ → Links
init s head = set_prev (set_next s head head) head head

-- `chula_list_empty`
unfoldable pub is_empty : Links → ℕ → Bool
is_empty s list = s.next list == list

-- `chula_list_add`
unfoldable pub add : Links → ℕ → ℕ → Links
add s new head =
    let s1 = set_next s new (s.next head) in
    let s2 = set_prev s1 new head in let s3 = set_prev s2 (s2.next head) new in set_next s3 head new

-- `chula_list_add_tail`
unfoldable pub add_tail : Links → ℕ → ℕ → Links
add_tail s new head =
    let s1 = set_next s new head in
    let s2 = set_prev s1 new (s1.prev head) in
    let s3 = set_next s2 (s2.prev head) new in set_prev s3 head new

-- `chula_list_del`
unfoldable pub del : Links → ℕ → Links
del s entry =
    let s1 = set_prev s (s.next entry) (s.prev entry) in set_next s1 (s1.prev entry) (s1.next entry)

-- `chula_list_reparent`
unfoldable pub reparent : Links → ℕ → ℕ → Links
unfolding is_empty
reparent s list new =
    let s1 = set_next s new (s.next list) in
    let s2 = set_prev s1 new (s1.prev list) in
    let s3 = set_next s2 (s2.prev new) new in
    if is_empty s list then s else set_prev s3 (s3.next new) new

-- The loop of `chula_list_get_len`, on as many rounds as it is given.
unfoldable pub len_loop : ℕ → Links → ℕ → ℕ → ℕ → Run ℕ
len_loop zero s head i n = stuck
len_loop (suc rounds) s head i n =
    let rest = len_loop rounds s head (s.next i) ((n + 1) % 2 ^ 32) in
    if i == head then done n else rest

-- `chula_list_get_len`: the status and `*len`.
unfoldable pub get_len : ℕ → Links → ℕ → Run (Ret × ℕ)
unfolding len_loop
get_len rounds s head = do n ← len_loop rounds s head (s.next head) 0; done (ok, n)
