-- ===== src/Alloc/FreeList/Ring.antt =====
-- `free_list_insert` and `free_list_delete` of src/mem_free.c on the ring of free blocks.
use venus_scheduler.Prelude.{
  ℕ, suc, ◌+◌, ◌^◌, ◌<◌, ◌≡◌, ◌≢◌, refl, true, false, List, [], ◌∷◌, arith, ◌==◌, length,
  if◌then◌else◌, sym, Bool-cases, inl, inr, Distinct, has, has-last, last_or, ne_of_has,
}
use mathlib.Core.Path.{subst}
use venus_scheduler.Alloc.Block.{Memory, Heap, add32, sub32}
use venus_scheduler.Alloc.FreeList.{
  get_prevfree, get_nextfree, set_prevfree, set_nextfree, insert_links, free_list_insert,
  free_list_delete,
}
use venus_scheduler.Alloc.FreeList.Chain.{
  IsNode, AllNodes, Linked, Chain, IsNode-of_has, last-prev, relink,
}

-- The ring that starts at `free_list_head` visits the blocks `xs` in order, and
-- `free_list_counter` counts them.
abbrev pub IsFreeList : Heap → List ℕ → Type 0
IsFreeList s [] = (s.free_list_head ≡ 0) × (s.free_list_counter ≡ 0)
IsFreeList s (x ∷ xs) =
    (s.free_list_head ≡ x)
    × (s.free_list_counter ≡ suc (length xs))
    × Chain s.mem x xs x
    × Distinct (x ∷ xs)
    × AllNodes (x ∷ xs)

-- No link of the blocks `xs` stands at `b`.
abbrev pub Outside : List ℕ → ℕ → Type 0
Outside [] b = Unit
Outside (x ∷ xs) b = (b ≢ x + 4) × (b ≢ x + 8) × Outside xs b

pub Outside-of_has :
    (xs : List ℕ) (b y : ℕ) → Outside xs b → has y xs ≡ true → (b ≢ y + 4) × (b ≢ y + 8)
Outside-of_has [] b y o i = absurd (ground arith)
Outside-of_has (x ∷ xs) b y o i = elim (Bool-cases (y == x)) [
  | inl e ↦ ground arith
  | inr e ↦ Outside-of_has xs b y o.2 (ground arith)
]

pub link_addresses :
    (x : ℕ) → IsNode x → (add32 x 4 ≡ x + 4) × (add32 x 8 ≡ x + 8) × ((x == 0) ≡ false)
link_addresses x node = (omega arith, omega arith, ground arith)

insert_links_lem :
    (m : Memory) (h n t : ℕ)
    → IsNode h
    → IsNode n
    → IsNode t
    → m (h + 4) ≡ t
    → h ≢ n
    → t ≢ n
    → let g = insert_links m h n in
      Linked g n h
      × Linked g t n
      × ((b : ℕ) → b ≢ n + 8 → b ≢ h + 4 → b ≢ t + 8 → b ≢ n + 4 → g b ≡ m b)
unfolding insert_links get_prevfree set_prevfree set_nextfree
insert_links_lem m h n t ih in_ it e ne ne' =
    let (h4, h8, h0) = link_addresses h ih in
    let (n4, n8, n0) = link_addresses n in_ in
    let (t4, t8, t0) = link_addresses t it in
    rw (h0, h4, n4, n8, e, t8)
      ((ground arith, ground arith), (ground arith, ground arith), λ b p q r u. ground arith)

module _ (m : Memory) (x : ℕ) (xs : List ℕ) (n : ℕ) (c : Chain m x xs x) (d : Distinct (x ∷ xs))
    (nodes : AllNodes (x ∷ xs)) (node : IsNode n) (new : has n (x ∷ xs) ≡ false) where
  last-IsNode : IsNode (last_or x xs)
  last-IsNode = IsNode-of_has (x ∷ xs) (last_or x xs) nodes (has-last x xs)

  links :
      let g = insert_links m x n in
      Linked g n x
      × Linked g (last_or x xs) n
      × ((b : ℕ) → b ≢ n + 8 → b ≢ x + 4 → b ≢ last_or x xs + 8 → b ≢ n + 4 → g b ≡ m b)
  links =
      insert_links_lem m x n (last_or x xs) nodes.0 node last-IsNode (last-prev m x xs x c)
        (ne_of_has (x ∷ xs) x n (ground arith) new)
        (ne_of_has (x ∷ xs) (last_or x xs) n (has-last x xs) new)

  inserted : Chain (insert_links m x n) n (x ∷ xs) n
  inserted = (links.0, relink m (insert_links m x n) x xs x n c d prevs nexts links.1)
    where
      prevs : (y : ℕ) → has y xs ≡ true → insert_links m x n (y + 4) ≡ m (y + 4)
      prevs y i =
          let yn = IsNode-of_has xs y nodes.1 i in
          let y≢x = ne_of_has xs y x i d.0 in
          let y≢n = ne_of_has xs y n i (ground arith) in
          links.2 (y + 4) (omega arith) (omega arith) (omega (arith, last-IsNode)) (omega arith)

      nexts :
          (y : ℕ)
          → has y (x ∷ xs) ≡ true
          → y ≢ last_or x xs
          → insert_links m x n (y + 8) ≡ m (y + 8)
      nexts y i ne =
          let yn = IsNode-of_has (x ∷ xs) y nodes i in
          let y≢n = ne_of_has (x ∷ xs) y n i new in
          links.2 (y + 8) (omega arith) (omega arith) (omega arith) (omega arith)

  insert-Outside : (b : ℕ) → Outside (n ∷ x ∷ xs) b → insert_links m x n b ≡ m b
  insert-Outside b o =
      links.2 b o.1 o.2.0 (Outside-of_has (x ∷ xs) b (last_or x xs) o.2 (has-last x xs)).1 o.0

insert_nonempty :
    (s : Heap) (x n : ℕ)
    → s.free_list_head ≡ x
    → (x == 0) ≡ false
    → (s.free_list_counter == 0) ≡ false
    → free_list_insert s n ≡ record s {
      mem = insert_links s.mem x n;
      free_list_head = n;
      free_list_counter = add32 s.free_list_counter 1;
    }
unfolding free_list_insert
insert_nonempty s x n h hx hc = rw (h, hx, hc)

-- Inserting a block that is not free yet puts it at the head of the ring, and writes nothing but
-- links of the blocks of the new ring.
pub free_list_insert_lem :
    (s : Heap) (xs : List ℕ) (n : ℕ)
    → IsFreeList s xs
    → IsNode n
    → has n xs ≡ false
    → length xs + 1 < 2 ^ 32
    → let s' = free_list_insert s n in
      IsFreeList s' (n ∷ xs) × ((b : ℕ) → Outside (n ∷ xs) b → s'.mem b ≡ s.mem b)
unfolding free_list_insert set_prevfree set_nextfree
free_list_insert_lem s [] n f node new small =
    let (n4, n8, n0) = link_addresses n node in
    (
      (
        ground arith,
        ground arith,
        (ground (arith, n4, n8), ground (arith, n4, n8)),
        (refl, tt),
        (node, tt),
      ),
      λ b o. ground (arith, n4, n8),
    )
free_list_insert_lem s (x ∷ xs) n f node new small =
    let (h, count, c, d, nodes) = f in
    subst
      (λ s'. IsFreeList s' (n ∷ x ∷ xs) × ((b : ℕ) → Outside (n ∷ x ∷ xs) b → s'.mem b ≡ s.mem b))
      (sym (insert_nonempty s x n h (ground arith) (ground arith)))
      (
        (refl, omega arith, inserted s.mem x xs n c d nodes node new, (new, d), (node, nodes)),
        insert-Outside s.mem x xs n c d nodes node new,
      )

module _ (m : Memory) where
  -- The two writes that take `x` out from between `p` and `q`.
  unfoldable pub unlinked : (x p q : ℕ) → Memory
  unlinked x p q = set_nextfree (set_prevfree m q p) p q

  pub unlinked_lem :
      (x p q : ℕ)
      → IsNode p
      → IsNode q
      → Linked (unlinked x p q) p q × ((b : ℕ) → b ≢ q + 4 → b ≢ p + 8 → unlinked x p q b ≡ m b)
  unfolding unlinked set_prevfree set_nextfree
  unlinked_lem x p q np nq =
      let (p4, p8, p0) = link_addresses p np in
      let (q4, q8, q0) = link_addresses q nq in
      rw (q4, p8) ((ground arith, ground arith), λ b u v. ground arith)

pub delete_many :
    (s : Heap) (x p q : ℕ)
    → (s.free_list_head == 0) ≡ false
    → (s.free_list_counter == 0) ≡ false
    → (s.free_list_counter == 1) ≡ false
    → IsNode x
    → s.mem (x + 4) ≡ p
    → s.mem (x + 8) ≡ q
    → free_list_delete s x ≡ record s {
      mem = unlinked s.mem x p q;
      free_list_head = if x == s.free_list_head then q else s.free_list_head;
      free_list_counter = sub32 s.free_list_counter 1;
    }
unfolding free_list_delete get_prevfree get_nextfree unlinked
delete_many s x p q h0 c0 c1 node ep eq =
    let (x4, x8, x0) = link_addresses x node in rw (h0, c0, c1, x0, x4, x8, ep, eq)
