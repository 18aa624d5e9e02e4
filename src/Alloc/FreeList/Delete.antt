-- ===== src/Alloc/FreeList/Delete.antt =====
-- `free_list_delete` of src/mem_free.c on the ring of free blocks, case by case.
use venus_scheduler.Prelude.{
  ℕ, ◌+◌, ◌^◌, ◌<◌, ◌≡◌, ◌≢◌, refl, true, false, List, [], ◌∷◌, arith, ◌==◌, length, sym, ◌∙◌,
  Bool-cases, inl, inr, Distinct, Distinct-erase, erase, has, has-last, last_or, length-erase,
  ne_of_has, not-has-erase,
}
use mathlib.Core.Path.{subst}
use venus_scheduler.Alloc.Block.{Memory, Heap}
use venus_scheduler.Alloc.FreeList.{free_list_delete}
use venus_scheduler.Alloc.FreeList.Chain.{
  IsNode, AllNodes, Linked, Chain, IsNode-of_has, last-prev, relink, frame,
}
use venus_scheduler.Alloc.FreeList.Ring.{
  IsFreeList, Outside, Outside-of_has, unlinked, unlinked_lem, delete_many,
}

AllNodes-erase : (x : ℕ) (xs : List ℕ) → AllNodes xs → AllNodes (erase x xs)
AllNodes-erase x [] d = d
AllNodes-erase x (y ∷ ys) d = elim (Bool-cases (x == y)) [
  | inl e ↦ rw e d.1
  | inr e ↦ rw e (d.0, AllNodes-erase x ys d.1)
]

module _ (m g : Memory) where
  -- `g` differs from `m` at most where `p` and `q` are linked.
  abbrev Relinked : ℕ → ℕ → Type 0
  Relinked p q = Linked g p q × ((c : ℕ) → c ≢ q + 4 → c ≢ p + 8 → g c ≡ m c)

  skip_first :
      (a y : ℕ) (ys : List ℕ) (b : ℕ)
      → Chain m a (y ∷ ys) b
      → Distinct (a ∷ y ∷ ys)
      → AllNodes (a ∷ y ∷ ys)
      → IsNode b
      → has b (y ∷ ys) ≡ false
      → (m (y + 4) ≡ a)
        × (has (m (y + 8)) (b ∷ ys) ≡ true)
        × (Relinked a (m (y + 8)) → Chain g a ys b)
  skip_first a y [] b c d nodes node out =
      (c.0.1, ground arith, λ r. subst (λ q. Linked g a q) c.1.0 r.0)
  skip_first a y (z ∷ zs) b c d nodes node out =
      (c.0.1, ground arith, λ r. joined (subst (λ q. Relinked a q) c.1.0.0 r))
    where
      joined : Relinked a z → Linked g a z × Chain g z zs b
      joined (l, same) = (
        l,
        frame m g z zs b c.1.1
            (λ u i.
              let un = IsNode-of_has zs u nodes.1.1.1 i in
              let ne = ne_of_has zs u z i d.1.1.0 in same (u + 4) (omega arith) (omega arith))
            (λ u i.
              let un = IsNode-of_has (z ∷ zs) u nodes.1.1 i in
              let ne = ne_of_has (z ∷ zs) u a i (ground arith) in
              same (u + 8) (omega arith) (omega arith))
            (let ne : b ≢ z = ground arith in same (b + 4) (omega arith) (omega arith)),
      )

  -- Of a chain from `a` to `b`, the block `x` between them can be left out.
  skip :
      (a : ℕ) (xs : List ℕ) (b x : ℕ)
      → Chain m a xs b
      → Distinct (a ∷ xs)
      → AllNodes (a ∷ xs)
      → IsNode b
      → has b xs ≡ false
      → has x xs ≡ true
      → (has (m (x + 4)) (a ∷ xs) ≡ true)
        × (has (m (x + 8)) (b ∷ xs) ≡ true)
        × (Relinked (m (x + 4)) (m (x + 8)) → Chain g a (erase x xs) b)
  skip a [] b x c d nodes node out i = absurd (ground arith)
  skip a (y ∷ ys) b x c d nodes node out i = elim (Bool-cases (x == y)) [
    | inl e ↦
        let (before, after, rest) = skip_first a y ys b c d nodes node out in
        let e' : x ≡ y = ground arith in
        rw e (
          subst
            (λ t.
              (has (m (t + 4)) (a ∷ y ∷ ys) ≡ true)
              × (has (m (t + 8)) (b ∷ y ∷ ys) ≡ true)
              × (Relinked (m (t + 4)) (m (t + 8)) → Chain g a ys b))
            (sym e')
            (
              ground (arith, before),
              ground (arith, after),
              λ r. rest (subst (λ p. Relinked p (m (y + 8))) before r),
            ))
    | inr ne ↦
        let (before, after, rest) =
          skip y ys b x c.1 d.1 nodes.1 node (ground arith) (ground arith) in
        let p≢a = ne_of_has (y ∷ ys) (m (x + 4)) a before d.0 in
        let q≢y = ne_of_has (b ∷ ys) (m (x + 8)) y after (ground arith) in
        let pn = IsNode-of_has (y ∷ ys) (m (x + 4)) nodes.1 before in
        let qn = IsNode-of_has (b ∷ ys) (m (x + 8)) (node, nodes.1.1) after in
        rw ne (
          ground (arith, before),
          ground (arith, after),
          λ r. (
            (
              r.1 (a + 8) (omega (arith, qn, nodes.0)) (omega (arith, p≢a)) ∙ c.0.0,
              r.1 (y + 4) (omega (arith, q≢y)) (omega (arith, pn, nodes.1.0)) ∙ c.0.1,
            ),
            rest r,
          ),
        )
  ]

module _ (m : Memory) (h z : ℕ) (zs : List ℕ) (c : Chain m h (z ∷ zs) h) (d : Distinct (h ∷ z ∷ zs))
    (nodes : AllNodes (h ∷ z ∷ zs)) where
  tail_in : has (m (h + 4)) (z ∷ zs) ≡ true
  tail_in = ground (arith, last-prev m h (z ∷ zs) h c, has-last z zs)

  -- Without its head the ring starts at the successor.
  skip_head : Chain (unlinked m h (m (h + 4)) z) z zs z
  skip_head = relink m g z zs h z c.1 d.1 prevs nexts (subst (λ t. Linked g t z) tail_eq new.0)
    where
      g : Memory
      g = unlinked m h (m (h + 4)) z

      tail_eq : m (h + 4) ≡ last_or z zs
      tail_eq = last-prev m h (z ∷ zs) h c

      tail_node : IsNode (m (h + 4))
      tail_node = IsNode-of_has (z ∷ zs) (m (h + 4)) nodes.1 tail_in

      new : Relinked m g (m (h + 4)) z
      new = unlinked_lem m h (m (h + 4)) z tail_node nodes.1.0

      prevs : (y : ℕ) → has y zs ≡ true → g (y + 4) ≡ m (y + 4)
      prevs y i =
          let yn = IsNode-of_has zs y nodes.1.1 i in
          let ne = ne_of_has zs y z i d.1.0 in
          new.1 (y + 4) (omega arith) (omega (arith, tail_node))

      nexts : (y : ℕ) → has y (z ∷ zs) ≡ true → y ≢ last_or z zs → g (y + 8) ≡ m (y + 8)
      nexts y i ne =
          let yn = IsNode-of_has (z ∷ zs) y nodes.1 i in
          new.1 (y + 8) (omega (arith, nodes.1.0)) (omega (arith, tail_eq))

abbrev pub Deleted : Heap → (xs left : List ℕ) → Heap → Type 0
Deleted s xs left s' = IsFreeList s' left × ((b : ℕ) → Outside xs b → s'.mem b ≡ s.mem b)

module _ (s : Heap) (h z : ℕ) (zs : List ℕ) (f : IsFreeList s (h ∷ z ∷ zs))
    (small : length (h ∷ z ∷ zs) < 2 ^ 32) where
  delete_head : Deleted s (h ∷ z ∷ zs) (z ∷ zs) (free_list_delete s h)
  delete_head =
      let (head, count, c, d, nodes) = f in
      let p = s.mem (h + 4) in
      let tail_i = tail_in s.mem h z zs c d nodes in
      let tail_node = IsNode-of_has (z ∷ zs) p nodes.1 tail_i in
      let new = unlinked_lem s.mem h p z tail_node nodes.1.0 in
      subst (Deleted s (h ∷ z ∷ zs) (z ∷ zs))
        (sym (delete_many s h p z (ground arith) (ground arith) (ground arith) nodes.0 refl c.0.0))
        (
          (ground arith, omega arith, skip_head s.mem h z zs c d nodes, d.1, nodes.1),
          λ b o. new.1 b o.2.0 (Outside-of_has (z ∷ zs) b p o.2 tail_i).1,
        )

  delete_inside :
      (x : ℕ)
      → (x == h) ≡ false
      → has x (z ∷ zs) ≡ true
      → Deleted s (h ∷ z ∷ zs) (h ∷ erase x (z ∷ zs)) (free_list_delete s x)
  delete_inside x ne i =
      let (head, count, c, d, nodes) = f in
      let p = s.mem (x + 4) in
      let q = s.mem (x + 8) in
      let rest = skip s.mem (unlinked s.mem x p q) h (z ∷ zs) h x c d nodes nodes.0 d.0 i in
      let pn = IsNode-of_has (h ∷ z ∷ zs) p nodes rest.0 in
      let qn = IsNode-of_has (h ∷ z ∷ zs) q nodes rest.1 in
      let new = unlinked_lem s.mem x p q pn qn in
      subst (Deleted s (h ∷ z ∷ zs) (h ∷ erase x (z ∷ zs)))
        (sym (
          delete_many s x p q (ground arith) (ground arith) (ground arith)
            (IsNode-of_has (z ∷ zs) x nodes.1 i) refl refl))
        (
          (
            ground arith,
            omega (arith, length-erase x (z ∷ zs) i),
            rest.2 new,
            (not-has-erase x h (z ∷ zs) d.0, Distinct-erase x (z ∷ zs) d.1),
            (nodes.0, AllNodes-erase x (z ∷ zs) nodes.1),
          ),
          λ b o.
              new.1 b (Outside-of_has (h ∷ z ∷ zs) b q o rest.1).0
                (Outside-of_has (h ∷ z ∷ zs) b p o rest.0).1,
        )

delete_only :
    (s : Heap) (h x : ℕ)
    → s.free_list_counter ≡ 1
    → h ≢ 0
    → s.free_list_head ≡ h
    → Deleted s (h ∷ []) [] (free_list_delete s x)
unfolding free_list_delete
delete_only s h x count pos head = ((ground arith, ground arith), λ b o. ground arith)

-- Deleting a free block leaves the ring of the others, in their order, and writes nothing but
-- links of the blocks of the ring.
pub free_list_delete_lem :
    (s : Heap) (xs : List ℕ) (x : ℕ)
    → IsFreeList s xs
    → has x xs ≡ true
    → length xs < 2 ^ 32
    → Deleted s xs (erase x xs) (free_list_delete s x)
free_list_delete_lem s [] x f i small = absurd (ground arith)
free_list_delete_lem s (h ∷ []) x f i small =
    let e : (x == h) ≡ true = ground arith in rw e (delete_only s h x f.1 (omega arith) f.0)
free_list_delete_lem s (h ∷ z ∷ zs) x f i small = elim (Bool-cases (x == h)) [
  | inl e ↦
      let e' : x ≡ h = ground arith in
      rw e (
        subst (λ t. Deleted s (h ∷ z ∷ zs) (z ∷ zs) (free_list_delete s t)) (sym e')
          (delete_head s h z zs f small))
  | inr ne ↦ rw ne (delete_inside s h z zs f small x ne (ground arith))
]
