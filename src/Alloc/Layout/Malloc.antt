-- ===== src/Alloc/Layout/Malloc.antt =====
-- `malloc` of src/mem_alloc.c on the whole heap.
use venus_scheduler.Prelude.{
  ℕ, ◌+◌, ◌-◌, ◌%◌, ◌^◌, ◌<◌, ◌≤◌, ◌≡◌, refl, true, false, ◌&&◌, List, [], ◌∷◌, arith, ltb, leb,
  Bool-cases, inl, inr, ◌∙◌, sym, ap, none, some, Option-cases, ◌⊎◌, erase, has,
}
use mathlib.Core.Option.{some-injective}
use venus_scheduler.Alloc.Block.{Memory, Heap, get_blocksize, align_up}
use venus_scheduler.Alloc.Malloc.{malloc, request_size, usable_size}
use venus_scheduler.Alloc.Malloc.Split.{IsBlock}
use venus_scheduler.Alloc.Malloc.FirstFit.{FreeBlocks, first_fit, allocated, malloc_lem}
use venus_scheduler.Alloc.Layout.{Tile, free_starts, in_free, split_tile, IsHeap}
use venus_scheduler.Alloc.Layout.Tiles.{free_start-IsBlock}
use venus_scheduler.Alloc.Layout.Allocate.{Serves}
use venus_scheduler.Alloc.Layout.Taken.{taken, taken-kept, taken-IsHeap, take_block-taken}

FreeBlocks-of_all :
    (m : Memory) (xs : List ℕ)
    → ((y : ℕ) → has y xs ≡ true → IsBlock m y (get_blocksize m y) 0)
    → FreeBlocks m xs
FreeBlocks-of_all m [] all = tt
FreeBlocks-of_all m (x ∷ xs) all =
    (all x (ground arith), FreeBlocks-of_all m xs (λ y i. all y (ground arith)))

FreeBlocks-of_heap :
    (s : Heap) (lo hi : ℕ) (ts : List Tile) (xs : List ℕ)
    → IsHeap s lo hi ts xs
    → FreeBlocks s.mem xs
FreeBlocks-of_heap s lo hi ts xs h =
    FreeBlocks-of_all s.mem xs (λ y i.
      free_start-IsBlock s.mem (hi - 4) y (lo + 12) ts h.words h.tiled (sym (h.listed y) ∙ i))

-- What first fit finds is in the list and has room.
first_fit-found :
    (m : Memory) (request : ℕ) (xs : List ℕ) (x : ℕ)
    → first_fit m request xs ≡ some x
    → (has x xs ≡ true) × (request + 16 ≤ get_blocksize m x)
unfolding first_fit
first_fit-found m request [] x e = absurd (ground arith)
first_fit-found m request (y ∷ ys) x e =
    elim (Bool-cases (leb (request + 16) (get_blocksize m y))) [
      | inl fits ↦
          let found : some y ≡ some x = rw fits at e in
          let same : y ≡ x = some-injective y x found in (ground arith, ground arith)
      | inr small ↦
          let found : first_fit m request ys ≡ some x = rw small at e in
          let later = first_fit-found m request ys x found in (ground arith, later.1)
    ]

request_size-whole :
    (size : ℕ) → size < 2 ^ 32 - 16 → (request_size size % 8 ≡ 0) × (16 ≤ request_size size)
unfolding request_size align_up
request_size-whole size less = ground arith

module _ (s : Heap) (lo hi : ℕ) (ts : List Tile) (xs : List ℕ) (size : ℕ) (h : IsHeap s lo hi ts xs)
    (pos : 0 < size) (less : size < hi - lo - 16) where
  abbrev request : ℕ
  request = request_size size

  usable : usable_size s ≡ hi - lo - 16
  unfolding usable_size
  usable = rw (h.starts_at, h.ends_at) (omega (arith, h.room, h.bound))

  malloc-allocated : malloc size s ≡ some (allocated s request (first_fit s.mem request xs))
  malloc-allocated =
      let test : (ltb 0 size && ltb size (usable_size s)) ≡ true = ground (arith, usable) in
      malloc_lem s xs size h.words h.free_list (FreeBlocks-of_heap s lo hi ts xs h) ∙ rw test refl

  serves : (x : ℕ) → first_fit s.mem request xs ≡ some x → Serves s lo hi ts xs x request
  serves x e =
      let sized = request_size-whole size (omega (arith, h.bound)) in
      let found = first_fit-found s.mem request xs x e in
      record { heap = h; free_block = found.0; least = sized.1; whole = sized.0; room = found.1 }

  malloc-taken :
      (x : ℕ) (e : first_fit s.mem request xs ≡ some x)
      → malloc size s ≡ some (x + 4, taken s lo hi ts xs x request (serves x e))
  unfolding allocated
  malloc-taken x e =
      malloc-allocated
      ∙ rw e (ap (λ t. some (x + 4, t)) (take_block-taken s lo hi ts xs x request (serves x e)))

-- What `malloc` of a size makes of a heap: NULL and the same heap, if no block of the free list
-- leaves sixteen bytes or more behind the rounded request; else the payload of a free block that
-- is split, and a heap again, with the rest of it first in the free list.
abbrev pub Allocates : (s : Heap) (lo hi : ℕ) (ts : List Tile) (xs : List ℕ) (size : ℕ) → Type 0
Allocates s lo hi ts xs size =
    ((malloc size s ≡ some (0, s)) × (first_fit s.mem (request_size size) xs ≡ none))
    ⊎ ((x : ℕ) × (s' : Heap) × (malloc size s ≡ some (x + 4, s'))
        × (free_starts x (lo + 12) ts ≡ true)
        × IsHeap s' lo hi (split_tile x (request_size size) (lo + 12) ts)
            ((x + request_size size) ∷ erase x xs))

pub malloc-IsHeap :
    (s : Heap) (lo hi : ℕ) (ts : List Tile) (xs : List ℕ) (size : ℕ)
    → IsHeap s lo hi ts xs
    → 0 < size
    → size < hi - lo - 16
    → Allocates s lo hi ts xs size
unfolding allocated
malloc-IsHeap s lo hi ts xs size h pos less =
    elim (Option-cases (first_fit s.mem (request_size size) xs)) [
      | inl e ↦ inl (malloc-allocated s lo hi ts xs size h pos less ∙ rw e refl, e)
      | inr (x, e) ↦
          let q = serves s lo hi ts xs size h pos less x e in
          inr (
            x,
            taken s lo hi ts xs x (request_size size) q,
            malloc-taken s lo hi ts xs size h pos less x e,
            sym (h.listed x) ∙ q.free_block,
            taken-IsHeap s lo hi ts xs x (request_size size) q,
          )
    ]

-- What `malloc` makes of a heap with the free list `xs`: the assertion fails for a size that is 0 or
-- not below the room between the sentinels; NULL and the same heap, if no block of the free list
-- leaves sixteen bytes or more behind the rounded request; else the payload of the first that does,
-- and a heap again in which that block alone is split, has left the free list, and the rest of it
-- heads the list.
abbrev pub TakesFirst : (s : Heap) (lo hi : ℕ) (ts : List Tile) (xs : List ℕ) (size : ℕ) → Type 0
TakesFirst s lo hi ts xs size =
    (((ltb 0 size && ltb size (hi - lo - 16)) ≡ false) × (malloc size s ≡ none))
    ⊎ ((((ltb 0 size && ltb size (hi - lo - 16)) ≡ true)
          × (first_fit s.mem (request_size size) xs ≡ none)
          × (malloc size s ≡ some (0, s)))
        ⊎ (((ltb 0 size && ltb size (hi - lo - 16)) ≡ true)
            × ((x : ℕ) × (s' : Heap) × (first_fit s.mem (request_size size) xs ≡ some x)
                × (malloc size s ≡ some (x + 4, s'))
                × IsHeap s' lo hi (split_tile x (request_size size) (lo + 12) ts)
                    ((x + request_size size) ∷ erase x xs))))

malloc-too_large :
    (s : Heap) (lo hi : ℕ) (ts : List Tile) (xs : List ℕ) (size : ℕ)
    → IsHeap s lo hi ts xs
    → (ltb 0 size && ltb size (hi - lo - 16)) ≡ false
    → malloc size s ≡ none
unfolding usable_size
malloc-too_large s lo hi ts xs size h e =
    let room : usable_size s ≡ hi - lo - 16 =
      rw (h.starts_at, h.ends_at) (omega (arith, h.room, h.bound)) in
    let test : (ltb 0 size && ltb size (usable_size s)) ≡ false = rw room e in
    malloc_lem s xs size h.words h.free_list (FreeBlocks-of_heap s lo hi ts xs h) ∙ rw test refl

-- On a whole heap, `malloc` of a size that is positive and below the room between the sentinels
-- returns the payload of the first block of the free list that leaves sixteen bytes or more behind
-- the rounded request, and a whole heap in which this block alone is split, has left the free list,
-- and the rest of it heads the list. Without such a block it returns NULL and the same heap. For any
-- other size the assertion fails.
pub malloc-first_fit :
    (s : Heap) (lo hi : ℕ) (ts : List Tile) (xs : List ℕ) (size : ℕ)
    → IsHeap s lo hi ts xs
    → TakesFirst s lo hi ts xs size
unfolding allocated
malloc-first_fit s lo hi ts xs size h = elim (Bool-cases (ltb 0 size && ltb size (hi - lo - 16))) [
  | inr out ↦ inl (out, malloc-too_large s lo hi ts xs size h out)
  | inl within ↦
      let pos : 0 < size = ground arith in
      let less : size < hi - lo - 16 = ground arith in
      elim (Option-cases (first_fit s.mem (request_size size) xs)) [
        | inl e ↦ inr (inl (within, e, malloc-allocated s lo hi ts xs size h pos less ∙ rw e refl))
        | inr (x, e) ↦
            let q = serves s lo hi ts xs size h pos less x e in
            inr (
              inr (
                within,
                (
                  x,
                  taken s lo hi ts xs x (request_size size) q,
                  e,
                  malloc-taken s lo hi ts xs size h pos less x e,
                  taken-IsHeap s lo hi ts xs x (request_size size) q,
                ),
              ))
      ]
]

-- A call of `malloc` for a positive size below the room between the sentinels, which returns `p`
-- and the heap `s'`, changes no word `b` outside the free blocks of the whole heap before.
pub malloc-kept :
    (s s' : Heap) (lo hi : ℕ) (ts : List Tile) (xs : List ℕ) (size p b : ℕ)
    → IsHeap s lo hi ts xs
    → 0 < size
    → size < hi - lo - 16
    → malloc size s ≡ some (p, s')
    → in_free b (lo + 12) ts ≡ false
    → s'.mem b ≡ s.mem b
unfolding allocated
malloc-kept s s' lo hi ts xs size p b h pos less r out =
    elim (Option-cases (first_fit s.mem (request_size size) xs)) [
      | inl e ↦
          let same =
            some-injective (0, s) (p, s')
              (sym (malloc-allocated s lo hi ts xs size h pos less ∙ rw e refl) ∙ r) in
          sym (ap (λ (o : ℕ × Heap). o.1.mem b) same)
      | inr (x, e) ↦
          let q = serves s lo hi ts xs size h pos less x e in
          let t = taken s lo hi ts xs x (request_size size) q in
          let same =
            some-injective (x + 4, t) (p, s')
              (sym (malloc-taken s lo hi ts xs size h pos less x e) ∙ r) in
          sym (ap (λ (o : ℕ × Heap). o.1.mem b) same)
          ∙ taken-kept s lo hi ts xs x (request_size size) q b out
    ]
