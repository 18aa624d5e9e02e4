-- ===== src/Alloc/FreeList/Frame.antt =====
-- What the operations of src/mem_free.c on the free list leave as it was.
use venus_scheduler.Prelude.{
  ℕ, ◌+◌, ◌^◌, ◌<◌, ◌≡◌, ◌≢◌, refl, true, ◌||◌, List, [], ◌∷◌, arith, ◌==◌, update, Bool-cases, inl,
  inr, Distinct, has,
}
use venus_scheduler.Alloc.Block.{Memory, Heap, add32}
use venus_scheduler.Alloc.Block.Words.{IsMemory}
use venus_scheduler.Alloc.FreeList.{
  get_prevfree, get_nextfree, set_prevfree, set_nextfree, insert_links, free_list_insert,
  free_list_delete,
}
use venus_scheduler.Alloc.FreeList.Chain.{frame}
use venus_scheduler.Alloc.FreeList.Ring.{IsFreeList, Outside}

-- The links of `xs` are the same in both memories.
abbrev pub SameLinks : Memory → Memory → List ℕ → Type 0
SameLinks m g xs = (y : ℕ) → has y xs ≡ true → (g (y + 4) ≡ m (y + 4)) × (g (y + 8) ≡ m (y + 8))

pub keep-IsFreeList :
    (s : Heap) (g : Memory) (xs : List ℕ)
    → IsFreeList s xs
    → SameLinks s.mem g xs
    → IsFreeList (record s { mem = g }) xs
keep-IsFreeList s g [] f same = f
keep-IsFreeList s g (x ∷ xs) f same =
    let (head, count, c, d, nodes) = f in
    (
      head,
      count,
      frame s.mem g x xs x c (λ y i. (same y (ground arith)).0) (λ y i. (same y i).1)
          (same x (ground arith)).0,
      d,
      nodes,
    )

pub Outside-of_all :
    (xs : List ℕ) (b : ℕ) → ((y : ℕ) → has y xs ≡ true → (b ≢ y + 4) × (b ≢ y + 8)) → Outside xs b
Outside-of_all [] b out = tt
Outside-of_all (x ∷ xs) b out =
    let here = out x (ground arith) in
    (here.0, here.1, Outside-of_all xs b (λ y i. out y (ground arith)))

update-IsMemory : {m : Memory} (a v : ℕ) → IsMemory m → v < 2 ^ 32 → IsMemory (update m a v)
update-IsMemory a v w less b = ground (arith, w b)

prevfree-bound : (m : Memory) (x : ℕ) → IsMemory m → get_prevfree m x < 2 ^ 32
unfolding get_prevfree
prevfree-bound m x w = ground (arith, w (add32 x 4))

nextfree-bound : (m : Memory) (x : ℕ) → IsMemory m → get_nextfree m x < 2 ^ 32
unfolding get_nextfree
nextfree-bound m x w = ground (arith, w (add32 x 8))

-- The two addresses of the heap.
abbrev pub SameArea : Heap → Heap → Type 0
SameArea s g = (g.alloc_start ≡ s.alloc_start) × (g.alloc_end ≡ s.alloc_end)

pub free_list_delete_frame :
    (s : Heap) (x : ℕ)
    → IsMemory s.mem
    → IsMemory (free_list_delete s x).mem × SameArea s (free_list_delete s x)
unfolding free_list_delete set_nextfree set_prevfree
free_list_delete_frame s x w =
    elim (Bool-cases (s.free_list_head == 0 || s.free_list_counter == 0)) [
      | inl e ↦ rw e (w, (refl, refl))
      | inr e ↦ elim (Bool-cases (s.free_list_counter == 1)) [
        | inl one ↦ rw (e, one) (w, (refl, refl))
        | inr more ↦
            let p = get_prevfree s.mem x in
            let q = get_nextfree s.mem x in
            rw (e, more)
              (
                update-IsMemory (add32 p 8) q
                    (update-IsMemory (add32 q 4) p w (prevfree-bound s.mem x w))
                    (nextfree-bound s.mem x w),
                (refl, refl),
              )
      ]
    ]

insert_links-IsMemory :
    {m : Memory} (head n : ℕ)
    → IsMemory m
    → head < 2 ^ 32
    → n < 2 ^ 32
    → IsMemory (insert_links m head n)
unfolding insert_links set_nextfree set_prevfree
insert_links-IsMemory {m} head n w hh hn =
    let t = get_prevfree m head in
    update-IsMemory (add32 n 4) t
      (update-IsMemory (add32 t 8) n
        (update-IsMemory (add32 head 4) n (update-IsMemory (add32 n 8) head w hh) hn) hn)
      (prevfree-bound m head w)

pub free_list_insert_frame :
    (s : Heap) (n : ℕ)
    → IsMemory s.mem
    → s.free_list_head < 2 ^ 32
    → n < 2 ^ 32
    → IsMemory (free_list_insert s n).mem × SameArea s (free_list_insert s n)
unfolding free_list_insert set_nextfree set_prevfree
free_list_insert_frame s n w hh hn =
    elim (Bool-cases (s.free_list_head == 0 || s.free_list_counter == 0)) [
      | inl e ↦
          rw e (update-IsMemory (add32 n 8) n (update-IsMemory (add32 n 4) n w hn) hn, (refl, refl))
      | inr e ↦ rw e (insert_links-IsMemory s.free_list_head n w hh hn, (refl, refl))
    ]

pub head-bound : (s : Heap) (xs : List ℕ) → IsFreeList s xs → s.free_list_head < 2 ^ 32
head-bound s [] f = omega arith
head-bound s (x ∷ xs) f = let (head, count, c, d, nodes) = f in omega (arith, nodes.0)

pub Distinct-of_list : (s : Heap) (xs : List ℕ) → IsFreeList s xs → Distinct xs
Distinct-of_list s [] f = tt
Distinct-of_list s (x ∷ xs) f = let (head, count, c, d, nodes) = f in d
