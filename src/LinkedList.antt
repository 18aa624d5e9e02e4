-- ===== src/LinkedList.antt =====
-- src/linked_list.c: lists linked both ways, between two sentinels.
-- A pointer is an address, NULL is 0; the store gives the node at each address. The addresses that
-- `malloc` gives are arguments. `link_test` and the messages are left out.
pub mod Chain
pub mod Edit
pub mod Loops
mod Tests
use venus_scheduler.Prelude.{
  ℕ, zero, suc, Bool, Option, none, some, List, [], ◌∷◌, ◌++◌, ◌==◌, if◌then◌else◌, update,
}
use venus_scheduler.Fifo.{null}

-- `node_t`
pub record Node : Type 0 where
  pub item : ℕ
  pub prev : ℕ
  pub next : ℕ

abbrev pub Store : Type 0
Store = ℕ → Node

-- `list_t`: the addresses of the sentinels
pub record Links : Type 0 where
  pub head : ℕ
  pub tail : ℕ

unfoldable pub set_next : Store → ℕ → ℕ → Store
set_next s a b = update s a (record (s a) { next = b })

unfoldable pub set_prev : Store → ℕ → ℕ → Store
set_prev s a b = update s a (record (s a) { prev = b })

-- The new list's sentinels are at `head` and `tail`.
unfoldable pub create_list : (head tail : ℕ) → Store → Store
create_list head tail s =
    let s1 = update s head (record { item = 0; prev = null; next = tail }) in
    update s1 tail (record { item = 0; prev = head; next = null })

unfoldable pub create_node : (p item : ℕ) → Store → Store
create_node p item s = update s p (record { item = item; prev = null; next = null })

unfoldable pub insert : Links → ℕ → Store → Store
insert l p s =
    let s1 = set_next s p (s l.head).next in
    let s2 = set_prev s1 (s1 l.head).next p in let s3 = set_next s2 l.head p in set_prev s3 p l.head

unfoldable pub delete_node : ℕ → Store → Store
delete_node p s = let s1 = set_next s (s p).prev (s p).next in set_prev s1 (s1 p).next (s1 p).prev

-- The loop of `search`, from `p` on, over the rounds given; `none` is a loop that goes on.
unfoldable pub search_from : ℕ → Links → ℕ → ℕ → Store → Option ℕ
search_from zero l key p s = if p == l.tail then some null else none
search_from (suc rounds) l key p s =
    let rest = search_from rounds l key (s p).next s in
    if p == l.tail then some null else if (s p).item == key then some p else rest

unfoldable pub search : ℕ → Links → ℕ → Store → Option ℕ
search rounds l key s = search_from rounds l key l.head s

-- The loop of `traverse`, for a `visit` that leaves the links alone and changes a state.
unfoldable pub traverse_from {ℓ} : {A : Type ℓ} → ℕ → Links → (ℕ → A → A) → ℕ → Store → A → Option A
traverse_from zero l visit p s a = if p == l.tail then some a else none
traverse_from (suc rounds) l visit p s a =
    let rest = traverse_from rounds l visit (s p).next s (visit p a) in
    if p == l.tail then some a else rest

unfoldable pub traverse {ℓ} : {A : Type ℓ} → ℕ → Links → (ℕ → A → A) → Store → A → Option A
traverse rounds l visit s a = traverse_from rounds l visit (s l.head).next s a

-- The nodes that `destroy_list` frees, in order; the list is freed after them.
unfoldable pub destroy_list : ℕ → Links → Store → Option (List ℕ)
destroy_list rounds l s = traverse rounds l (λ q freed. freed ++ (q ∷ [])) s []

unfoldable pub is_list_empty : Links → Store → Bool
is_list_empty l s = (s l.tail).prev == l.head

unfoldable pub read_first : Links → Store → ℕ
read_first l s = if (s l.tail).prev == l.head then null else (s l.head).next

unfoldable pub read_last : Links → Store → ℕ
read_last l s = if (s l.tail).prev == l.head then null else (s l.tail).prev

-- The new node is at `p`. `none` is an assertion that fails; behind it, the test for the head is
-- never true.
unfoldable pub insert_before : Links → (node item p : ℕ) → Store → Option Store
insert_before l node item p s =
    let s1 = create_node p item s in
    let s2 = set_prev s1 p (s1 node).prev in
    let s3 = set_next s2 p node in
    let s4 = set_next s3 (s3 node).prev p in
    if node == l.head then none else some (set_prev s4 node p)
