-- ===== src/Alloc/Malloc/FirstFit.antt =====
-- Which block `malloc` of src/mem_alloc.c takes.
use venus_scheduler.Prelude.{
  ℕ, suc, ◌+◌, ◌<◌, ◌≤◌, ◌≡◌, refl, arith, ◌∙◌, false, ◌&&◌, Option, none, some, List, [], ◌∷◌,
  length, leb, ltb, ◌==◌, if◌then◌else◌, Bool-cases, inl, inr, ap,
}
use venus_scheduler.Alloc.Block.{Memory, Heap, get_blocksize, get_allocated}
use venus_scheduler.Alloc.Block.Words.{IsMemory, get_blocksize_lem, get_allocated_lem}
use venus_scheduler.Alloc.Block.Bounds.{header_and_payload}
use venus_scheduler.Alloc.FreeList.{get_nextfree}
use venus_scheduler.Alloc.FreeList.Chain.{IsNode, AllNodes, Chain}
use venus_scheduler.Alloc.FreeList.Ring.{IsFreeList, link_addresses}
use venus_scheduler.Alloc.Malloc.{
  split_block, try_alloc_with_splitting, take_block, malloc_loop, malloc, usable_size, request_size,
}
use venus_scheduler.Alloc.Malloc.Split.{IsBlock}

-- On a memory of 32-bit words, a request of sixteen bytes or more is served by a block exactly if
-- it is free and leaves sixteen bytes or more behind the request; then the block is split and its
-- payload returned, else NULL, and nothing changes.
pub try_alloc_lem :
    {m : Memory} {header size flag : ℕ} (request : ℕ)
    → IsMemory m
    → IsBlock m header size flag
    → flag < 2
    → 16 ≤ request
    → try_alloc_with_splitting m header request ≡ (
        if (flag == 0) && leb (request + 16) size
        then (header + 4, split_block m header request)
        else (0, m))
unfolding try_alloc_with_splitting
try_alloc_lem {m} {header} {size} {flag} request w block small least =
    rw (size_eq, flag_eq, (header_and_payload block.place).1) (ground arith)
  where
    size_eq : get_blocksize m header ≡ size
    size_eq = get_blocksize_lem header w ∙ block.head.size_bits

    flag_eq : get_allocated m header ≡ flag
    flag_eq = get_allocated_lem m header ∙ block.head.flag_bit

-- Every block of the list is free.
abbrev pub FreeBlocks : Memory → List ℕ → Type 0
FreeBlocks m [] = Unit
FreeBlocks m (x ∷ xs) = IsBlock m x (get_blocksize m x) 0 × FreeBlocks m xs

-- The first block of the list that leaves sixteen bytes or more behind the request.
unfoldable pub first_fit : Memory → ℕ → List ℕ → Option ℕ
first_fit m request [] = none
first_fit m request (x ∷ xs) =
    let rest = first_fit m request xs in
    if leb (request + 16) (get_blocksize m x) then some x else rest

-- What an allocation does with the block that it found.
unfoldable pub allocated : Heap → ℕ → Option ℕ → ℕ × Heap
allocated s request none = (0, s)
allocated s request (some x) =
    (x + 4, take_block (record s { mem = split_block s.mem x request }) x (get_blocksize s.mem x))

next_of_link : (m : Memory) (a b : ℕ) → IsNode a → m (a + 8) ≡ b → get_nextfree m a ≡ b
unfolding get_nextfree
next_of_link m a b node e = let (a4, a8, a0) = link_addresses a node in rw (a0, a8, e)

module _ (s : Heap) (request : ℕ) (w : IsMemory s.mem) (least : 16 ≤ request) where
  loop_step :
      (n a : ℕ)
      → IsNode a
      → IsBlock s.mem a (get_blocksize s.mem a) 0
      → malloc_loop (suc n) request a s ≡ (
          if leb (request + 16) (get_blocksize s.mem a)
          then allocated s request (some a)
          else malloc_loop n request (get_nextfree s.mem a) s)
  unfolding malloc_loop allocated
  loop_step n a node block = elim (Bool-cases (leb (request + 16) (get_blocksize s.mem a))) [
    | inl fits ↦ rw (try_alloc_lem request w block (omega arith) least, fits, payload_pos)
    | inr small ↦ rw (try_alloc_lem request w block (omega arith) least, small)
  ]
    where
      payload_pos : (a + 4 == 0) ≡ false
      payload_pos = ground arith

  loop-first_fit :
      (a : ℕ) (xs : List ℕ) (b : ℕ)
      → Chain s.mem a xs b
      → AllNodes (a ∷ xs)
      → FreeBlocks s.mem (a ∷ xs)
      → malloc_loop (suc (length xs)) request a s
        ≡ allocated s request (first_fit s.mem request (a ∷ xs))
  unfolding first_fit
  loop-first_fit a [] b c nodes blocks =
      loop_step 0 a nodes.0 blocks.0
      ∙ elim (Bool-cases (leb (request + 16) (get_blocksize s.mem a))) [
        | inl fits ↦ rw fits
        | inr small ↦ rw small (unfold malloc_loop allocated in refl)
      ]
  loop-first_fit a (x ∷ xs) b c nodes blocks =
      loop_step (suc (length xs)) a nodes.0 blocks.0
      ∙ elim (Bool-cases (leb (request + 16) (get_blocksize s.mem a))) [
        | inl fits ↦ rw fits
        | inr small ↦
            rw (small, next_of_link s.mem a x nodes.0 c.0.0)
              (loop-first_fit x xs b c.1 nodes.1 blocks.1)
      ]

  loop_all :
      (xs : List ℕ)
      → IsFreeList s xs
      → FreeBlocks s.mem xs
      → malloc_loop s.free_list_counter request s.free_list_head s
        ≡ allocated s request (first_fit s.mem request xs)
  loop_all [] f blocks =
      ap (λ n. malloc_loop n request s.free_list_head s) f.1
      ∙ unfold malloc_loop allocated first_fit in refl
  loop_all (x ∷ xs) f blocks =
      ap (λ n. malloc_loop n request s.free_list_head s) f.1
      ∙ ap (λ a. malloc_loop (suc (length xs)) request a s) f.0
      ∙ loop-first_fit x xs x f.2 f.4 blocks

request_size-least : (size : ℕ) → 16 ≤ request_size size
unfolding request_size
request_size-least size = ground arith

-- On a memory of 32-bit words whose free list holds free blocks, `malloc` of a size that passes
-- the assertion does with the first block of the list, from its head on, that leaves sixteen bytes
-- or more behind the rounded request what `allocated` says: it splits it, takes it off the list,
-- lists the rest, and returns the address four past its header; without such a block it returns
-- NULL and changes nothing. For any other size the assertion fails.
pub malloc_lem :
    (s : Heap) (xs : List ℕ) (size : ℕ)
    → IsMemory s.mem
    → IsFreeList s xs
    → FreeBlocks s.mem xs
    → malloc size s ≡ (
        if ltb 0 size && ltb size (usable_size s)
        then some (allocated s (request_size size) (first_fit s.mem (request_size size) xs))
        else none)
unfolding malloc
malloc_lem s xs size w f blocks =
    ap (λ r. if ltb 0 size && ltb size (usable_size s) then some r else none)
      (loop_all s (request_size size) w (request_size-least size) xs f blocks)
