-- ===== src/LinkedList/Tests.antt =====
-- A list of the nodes 10 and 20, with the sentinels 1 and 2.
use venus_scheduler.Prelude.{ℕ, ◌+◌, ◌≡◌, refl, some, [], ◌∷◌, arith, ◌==◌, if◌then◌else◌}
use venus_scheduler.LinkedList.{
  Store, Links, insert, delete_node, traverse, destroy_list, search, read_last,
}
use venus_scheduler.LinkedList.Chain.{IsList}
use venus_scheduler.LinkedList.Edit.{insert-IsList, delete_node-IsList}
use venus_scheduler.LinkedList.Loops.{
  visit_each, traverse_lem, destroy_list_lem, search_lem, ends_lem,
}

abbrev two : Links
two = record { head = 1; tail = 2 }

abbrev nodes : Store
nodes a =
    if a == 1
    then record { item = 0; prev = 0; next = 10 }
    else if a == 10
    then record { item = 7; prev = 1; next = 20 }
    else if a == 20
    then record { item = 8; prev = 10; next = 2 }
    else record { item = 0; prev = 20; next = 0 }

nodes-IsList : IsList nodes two (10 ∷ 20 ∷ [])
nodes-IsList = record {
  chain = ((refl, refl), ((refl, refl), (refl, refl)));
  distinct = (refl, (refl, (refl, (refl, tt))));
}

insert-IsList_example :
    IsList (insert two 30 nodes) two (30 ∷ 10 ∷ 20 ∷ [])
    × ((y : ℕ) → (insert two 30 nodes y).item ≡ (nodes y).item)
insert-IsList_example = insert-IsList nodes two (10 ∷ 20 ∷ []) 30 nodes-IsList refl

delete_node-IsList_example :
    IsList (delete_node 10 nodes) two (20 ∷ [])
    × ((y : ℕ) → (delete_node 10 nodes y).item ≡ (nodes y).item)
delete_node-IsList_example = delete_node-IsList nodes two (10 ∷ 20 ∷ []) 10 nodes-IsList refl

traverse_lem_test : traverse 2 two (λ y n. n + (nodes y).item) nodes 0 ≡ some 15
unfolding visit_each
traverse_lem_test =
    traverse_lem nodes two (10 ∷ 20 ∷ []) 2 (λ y n. n + (nodes y).item) 0 nodes-IsList (omega arith)

destroy_list_test : destroy_list 2 two nodes ≡ some (10 ∷ 20 ∷ [])
destroy_list_test = destroy_list_lem nodes two (10 ∷ 20 ∷ []) 2 nodes-IsList (omega arith)

-- The head's own item is 0.
search_head_test : search 3 two 0 nodes ≡ some 1
search_head_test = search_lem nodes two (10 ∷ 20 ∷ []) 3 0 nodes-IsList (omega arith)

read_last_test : read_last two nodes ≡ 20
read_last_test = (ends_lem nodes two (10 ∷ 20 ∷ []) nodes-IsList).2

-- The first node of the list with the item 8.
search_lem_test : search 3 two 8 nodes ≡ some 20
search_lem_test = search_lem nodes two (10 ∷ 20 ∷ []) 3 8 nodes-IsList (omega arith)
