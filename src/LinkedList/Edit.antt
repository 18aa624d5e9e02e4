-- ===== src/LinkedList/Edit.antt =====
-- `insert` and `delete_node` of src/linked_list.c on the nodes of a list.
use venus_scheduler.Prelude.{
  ℕ, ◌≡◌, ◌≢◌, refl, true, false, List, [], ◌∷◌, arith, ◌==◌, Bool-cases, inl, inr, Distinct,
  Distinct-erase, not-has-erase, erase, has, ne_of_has,
}
use venus_scheduler.LinkedList.{Store, Links, set_next, set_prev, create_list, insert, delete_node}
use venus_scheduler.LinkedList.Chain.{Linked, Chain, IsList, keep-Chain}

-- The links that `insert` writes, when `b` followed the head.
insert_links :
    (s : Store) (l : Links) (p b : ℕ)
    → (s l.head).next ≡ b
    → p ≢ l.head
    → p ≢ b
    → l.head ≢ b
    → Linked (insert l p s) l.head p
      × Linked (insert l p s) p b
      × ((y : ℕ) → y ≢ p → y ≢ l.head → (insert l p s y).next ≡ (s y).next)
      × ((y : ℕ) → y ≢ p → y ≢ b → (insert l p s y).prev ≡ (s y).prev)
      × ((y : ℕ) → (insert l p s y).item ≡ (s y).item)
unfolding insert set_next set_prev
insert_links s l p b e ne1 ne2 ne3 = rw e (
  (ground arith, ground arith),
  (ground arith, ground arith),
  λ y p1 p2. ground arith,
  λ y p1 p2. ground arith,
  λ y. ground arith,
)

-- `insert` puts a node that is not in the list first, keeps the others in order, and changes no item.
pub insert-IsList :
    (s : Store) (l : Links) (xs : List ℕ) (p : ℕ)
    → IsList s l xs
    → has p (l.head ∷ l.tail ∷ xs) ≡ false
    → IsList (insert l p s) l (p ∷ xs) × ((y : ℕ) → (insert l p s y).item ≡ (s y).item)
insert-IsList s l [] p h new =
    let d = h.distinct in
    let k = insert_links s l p l.tail h.chain.0 (ground arith) (ground arith) (ground arith) in
    (record { chain = (k.0, k.1); distinct = (ground arith, (ground arith, (refl, tt))) }, k.4)
insert-IsList s l (x ∷ xs) p h new =
    let d = h.distinct in
    let k = insert_links s l p x h.chain.0.0 (ground arith) (ground arith) (ground arith) in
    (
      record {
        chain = (k.0, (k.1, keep-Chain s (insert l p s) x xs l.tail h.chain.1 nexts prevs last));
        distinct = (ground arith, (ground arith, (ground arith, d.1.1)));
      },
      k.4,
    )
  where
    off : (y : ℕ) → has y (x ∷ xs) ≡ true → (y ≢ p) × (y ≢ l.head)
    off y i =
        let d = h.distinct in
        (ne_of_has (x ∷ xs) y p i (ground arith), ne_of_has (x ∷ xs) y l.head i (ground arith))

    links :
        Linked (insert l p s) l.head p
        × Linked (insert l p s) p x
        × ((y : ℕ) → y ≢ p → y ≢ l.head → (insert l p s y).next ≡ (s y).next)
        × ((y : ℕ) → y ≢ p → y ≢ x → (insert l p s y).prev ≡ (s y).prev)
        × ((y : ℕ) → (insert l p s y).item ≡ (s y).item)
    links =
        insert_links s l p x h.chain.0.0 (ground arith) (ground arith) (ground (arith, h.distinct))

    nexts : (y : ℕ) → has y (x ∷ xs) ≡ true → (insert l p s y).next ≡ (s y).next
    nexts y i = let o = off y i in links.2 y o.0 o.1

    prevs : (y : ℕ) → has y xs ≡ true → (insert l p s y).prev ≡ (s y).prev
    prevs y i =
        let d = h.distinct in links.3 y (off y (ground arith)).0 (ne_of_has xs y x i d.1.1.0)

    last : (insert l p s l.tail).prev ≡ (s l.tail).prev
    last = let d = h.distinct in links.3 l.tail (ground arith) (ground arith)

-- The neighbours of a node of the list.
neighbours :
    (s : Store) (p a : ℕ) (xs : List ℕ) (b : ℕ)
    → Chain s a xs b
    → has p xs ≡ true
    → (has (s p).prev (a ∷ xs) ≡ true) × (has (s p).next (b ∷ xs) ≡ true)
neighbours s p a [] b c i = absurd (ground arith)
neighbours s p a (x ∷ []) b c i =
    let e : p ≡ x = ground arith in rw e (ground (arith, c.0), ground (arith, c.1))
neighbours s p a (x ∷ y ∷ ys) b c i = elim (Bool-cases (p == x)) [
  | inl e ↦ let same : p ≡ x = ground arith in rw same (ground (arith, c.0), ground (arith, c.1.0))
  | inr ne ↦ let r = neighbours s p x (y ∷ ys) b c.1 (ground arith) in (ground arith, ground arith)
]

prev_apart :
    (s : Store) (p a : ℕ) (xs : List ℕ) (b : ℕ)
    → Chain s a xs b
    → has p xs ≡ true
    → Distinct (a ∷ xs)
    → p ≢ (s p).prev
prev_apart s p a [] b c i d = absurd (ground arith)
prev_apart s p a (x ∷ []) b c i d = let e : p ≡ x = ground arith in rw e (ground (arith, c.0))
prev_apart s p a (x ∷ y ∷ ys) b c i d = elim (Bool-cases (p == x)) [
  | inl e ↦ let same : p ≡ x = ground arith in rw same (ground (arith, c.0))
  | inr ne ↦ prev_apart s p x (y ∷ ys) b c.1 (ground arith) d.1
]

-- What `delete_node` writes.
delete_links :
    (s : Store) (p u v : ℕ)
    → (s p).prev ≡ u
    → (s p).next ≡ v
    → p ≢ u
    → Linked (delete_node p s) u v
      × ((y : ℕ) → y ≢ u → (delete_node p s y).next ≡ (s y).next)
      × ((y : ℕ) → y ≢ v → (delete_node p s y).prev ≡ (s y).prev)
      × ((y : ℕ) → (delete_node p s y).item ≡ (s y).item)
unfolding delete_node set_next set_prev
delete_links s p u v eu ev ne =
    let stays : (u == p) ≡ false = ground arith in
    rw (eu, ev, stays)
      ((ground arith, ground arith), λ y o. ground arith, λ y o. ground arith, λ y. ground arith)

module _ (s t : Store) (p u v : ℕ) (l : Linked t u v)
    (nexts : (y : ℕ) → y ≢ u → (t y).next ≡ (s y).next)
    (prevs : (y : ℕ) → y ≢ v → (t y).prev ≡ (s y).prev) (eu : (s p).prev ≡ u)
    (ev : (s p).next ≡ v) where
  -- The chain without the node, once its neighbours are linked.
  erase-Chain :
      (a : ℕ) (xs : List ℕ) (b : ℕ)
      → Chain s a xs b
      → has p xs ≡ true
      → Distinct (a ∷ xs)
      → has b (a ∷ xs) ≡ false
      → Chain t a (erase p xs) b
  erase-Chain a [] b c i d o = absurd (ground arith)
  erase-Chain a (x ∷ xs) b c i d o = elim (Bool-cases (p == x)) [
    | inl e ↦ rw e (first a x xs b c (ground arith) d o)
    | inr ne ↦
        let later : has p xs ≡ true = ground arith in
        let near = neighbours s p x xs b c.1 later in
        let a≢u : a ≢ u = ground (arith, near.0, eu) in
        let x≢v : x ≢ v = ground (arith, near.1, ev) in
        rw ne (
          (ground (arith, nexts a a≢u, c.0), ground (arith, prevs x x≢v, c.0)),
          erase-Chain x xs b c.1 later d.1 (ground arith),
        )
  ]
    where
      first :
          (a x : ℕ) (xs : List ℕ) (b : ℕ)
          → Chain s a (x ∷ xs) b
          → p ≡ x
          → Distinct (a ∷ x ∷ xs)
          → has b (a ∷ x ∷ xs) ≡ false
          → Chain t a xs b
      first a x [] b c e d o = ground (arith, l, c, eu, ev)
      first a x (z ∷ zs) b c e d o =
          let before : u ≡ a = ground (arith, c.0, eu) in
          let behind : v ≡ z = ground (arith, c.1.0, ev) in
          (
            (ground (arith, l), ground (arith, l)),
            keep-Chain s t z zs b c.1.1
                (λ y i. let ne = ne_of_has (z ∷ zs) y a i (ground arith) in nexts y (ground arith))
                (λ y i. let ne = ne_of_has zs y z i d.1.1.0 in prevs y (ground arith))
                (prevs b (ground arith)),
          )

-- `delete_node` of a node of the list takes it out, keeps the others in order, and changes no item.
pub delete_node-IsList :
    (s : Store) (l : Links) (xs : List ℕ) (p : ℕ)
    → IsList s l xs
    → has p xs ≡ true
    → IsList (delete_node p s) l (erase p xs) × ((y : ℕ) → (delete_node p s y).item ≡ (s y).item)
delete_node-IsList s l xs p h i =
    let d = h.distinct in
    let near = neighbours s p l.head xs l.tail h.chain i in
    let k =
      delete_links s p (s p).prev (s p).next refl refl
        (prev_apart s p l.head xs l.tail h.chain i (ground arith, d.1.1)) in
    (
      record {
        chain =
            erase-Chain s (delete_node p s) p (s p).prev (s p).next k.0 k.1 k.2 refl refl l.head xs
              l.tail h.chain i (ground arith, d.1.1) (ground arith);
        distinct = (
          ground (arith, not-has-erase p l.head xs),
          (not-has-erase p l.tail xs d.1.0, Distinct-erase p xs d.1.1),
        );
      },
      k.3,
    )

-- `create_list` makes an empty list of two sentinels.
pub create_list-IsList :
    (s : Store) (head tail : ℕ)
    → head ≢ tail
    → IsList (create_list head tail s) (record { head = head; tail = tail }) []
unfolding create_list
create_list-IsList s head tail ne = record {
  chain = (ground arith, ground arith);
  distinct = (ground arith, (refl, tt));
}
