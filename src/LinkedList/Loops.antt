-- ===== src/LinkedList/Loops.antt =====
-- `traverse`, `destroy_list`, and the ends of a list, of src/linked_list.c.
use venus_scheduler.Prelude.{
  ℕ, zero, suc, ◌≤◌, ◌<◌, ◌≡◌, refl, true, false, some, List, [], ◌∷◌, ◌++◌, arith, ◌==◌,
  if◌then◌else◌, length, Bool-cases, inl, inr, has, last_or, has-last, ne_of_has, ==_refl, ◌∙◌, ap,
  sym,
}
use mathlib.Core.List.{append-nil, append_assoc}
use venus_scheduler.Fifo.{null}
use venus_scheduler.Fifo.Contents.{head_or}
use venus_scheduler.LinkedList.{
  Store, Links, traverse_from, traverse, destroy_list, is_list_empty, read_first, read_last,
  search_from, search,
}
use venus_scheduler.LinkedList.Chain.{Chain, IsList}

-- The visits of the nodes `xs`, one after the other.
unfoldable pub visit_each {ℓ} : {A : Type ℓ} → (ℕ → A → A) → List ℕ → A → A
visit_each visit [] a = a
visit_each visit (x ∷ xs) a = visit_each visit xs (visit x a)

module _ {ℓ} {A : Type ℓ} (s : Store) (l : Links) (visit : ℕ → A → A) where
  traverse_rest :
      (rounds x : ℕ) (xs : List ℕ) (a : A)
      → Chain s x xs l.tail
      → has l.tail xs ≡ false
      → length xs ≤ rounds
      → traverse_from rounds l visit (s x).next s a ≡ some (visit_each visit xs a)
  unfolding traverse_from visit_each
  traverse_rest zero x [] a c o le = rw (c.0, ==_refl l.tail) refl
  traverse_rest (suc rounds) x [] a c o le = rw (c.0, ==_refl l.tail) refl
  traverse_rest zero x (y ∷ ys) a c o le = absurd (omega arith)
  traverse_rest (suc rounds) x (y ∷ ys) a c o le =
      let inside : (y == l.tail) ≡ false = ground arith in
      rw (c.0.0, inside) (traverse_rest rounds y ys (visit y a) c.1 (ground arith) (omega arith))

-- On rounds for each node of the list, `traverse` ends, and has visited each node once, from the
-- head to the tail.
pub traverse_lem {ℓ} :
    {A : Type ℓ} (s : Store) (l : Links) (xs : List ℕ) (rounds : ℕ) (visit : ℕ → A → A) (a : A)
    → IsList s l xs
    → length xs ≤ rounds
    → traverse rounds l visit s a ≡ some (visit_each visit xs a)
unfolding traverse
traverse_lem s l xs rounds visit a h le =
    traverse_rest s l visit rounds l.head xs a h.chain h.distinct.1.0 le

tail_prev : (s : Store) (a : ℕ) (xs : List ℕ) (b : ℕ) → Chain s a xs b → (s b).prev ≡ last_or a xs
tail_prev s a [] b c = c.1
tail_prev s a (x ∷ xs) b c = tail_prev s x xs b c.1

-- A list is empty exactly if it has no node; its first and last node are read, NULL if there is none.
pub ends_lem :
    (s : Store) (l : Links) (xs : List ℕ)
    → IsList s l xs
    → (is_list_empty l s ≡ (length xs == 0))
      × (read_first l s ≡ head_or null xs)
      × (read_last l s ≡ last_or null xs)
unfolding is_list_empty read_first read_last
ends_lem s l [] h =
    let empty : ((s l.tail).prev == l.head) ≡ true = ground (arith, h.chain) in
    rw empty (refl, refl, refl)
ends_lem s l (x ∷ xs) h =
    let end = tail_prev s x xs l.tail h.chain.1 in
    let apart =
      ne_of_has (x ∷ xs) (last_or x xs) l.head (has-last x xs) (ground (arith, h.distinct)) in
    let full : ((s l.tail).prev == l.head) ≡ false = ground (arith, end) in
    rw full (ground arith, h.chain.0.0, end)

freed_each : (ys zs : List ℕ) → visit_each (λ q freed. freed ++ (q ∷ [])) ys zs ≡ zs ++ ys
unfolding visit_each
freed_each [] zs = sym (append-nil zs)
freed_each (y ∷ ys) zs = freed_each ys (zs ++ (y ∷ [])) ∙ append_assoc zs (y ∷ []) ys

-- On rounds for each node of the list, `destroy_list` ends, and frees each node of the list once, in
-- order, before the list; its sentinels are not freed.
pub destroy_list_lem :
    (s : Store) (l : Links) (xs : List ℕ) (rounds : ℕ)
    → IsList s l xs
    → length xs ≤ rounds
    → destroy_list rounds l s ≡ some xs
unfolding destroy_list
destroy_list_lem s l xs rounds h le =
    traverse_lem s l xs rounds (λ q freed. freed ++ (q ∷ [])) [] h le ∙ ap some (freed_each xs [])

module _ (s : Store) (l : Links) (key : ℕ) where
  -- The first node of `xs` with the item.
  abbrev pub first_with : List ℕ → ℕ
  first_with [] = null
  first_with (x ∷ xs) = if (s x).item == key then x else first_with xs

  at_tail : (rounds : ℕ) → search_from rounds l key l.tail s ≡ some null
  unfolding search_from
  at_tail zero = rw (==_refl l.tail) refl
  at_tail (suc rounds) = rw (==_refl l.tail) refl

  search_rest :
      (rounds x : ℕ) (xs : List ℕ)
      → Chain s x xs l.tail
      → has l.tail (x ∷ xs) ≡ false
      → length xs < rounds
      → search_from rounds l key x s ≡ some (first_with (x ∷ xs))
  unfolding search_from
  search_rest zero x xs c o less = absurd (omega arith)
  search_rest (suc rounds) x [] c o less =
      let inside : (x == l.tail) ≡ false = ground arith in
      elim (Bool-cases ((s x).item == key)) [
        | inl here ↦ rw (inside, here) refl
        | inr other ↦ rw (inside, other, c.0) (at_tail rounds)
      ]
  search_rest (suc rounds) x (y ∷ ys) c o less =
      let inside : (x == l.tail) ≡ false = ground arith in
      elim (Bool-cases ((s x).item == key)) [
        | inl here ↦ rw (inside, here) refl
        | inr other ↦
            rw (inside, other, c.0.0) (search_rest rounds y ys c.1 (ground arith) (omega arith))
      ]

-- On a round for each node and one more, `search` ends, and returns the first node with the item,
-- NULL if there is none; it begins with the sentinel at the head, whose item counts as one.
pub search_lem :
    (s : Store) (l : Links) (xs : List ℕ) (rounds key : ℕ)
    → IsList s l xs
    → length xs < rounds
    → search rounds l key s ≡ some (first_with s l key (l.head ∷ xs))
unfolding search
search_lem s l xs rounds key h less =
    search_rest s l key rounds l.head xs h.chain (ground (arith, h.distinct)) less
