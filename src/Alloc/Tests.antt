-- ===== src/Alloc/Tests.antt =====
-- The allocator on small heaps at 0x1000.
use venus_scheduler.Prelude.{ℕ, ◌+◌, ◌%◌, ◌≤◌, ◌≡◌, refl, some, [], ◌∷◌, ◌==◌, if◌then◌else◌, arith}
use venus_scheduler.Alloc.Block.{Memory, Heap, get_blocksize, align_up}
use venus_scheduler.Alloc.Block.Words.{IsMemory}
use venus_scheduler.Alloc.FreeList.{free_list_insert, free_list_delete, merge_free_blocks}
use venus_scheduler.Alloc.FreeList.Ring.{IsFreeList}
use venus_scheduler.Alloc.Malloc.{
  heap_init, malloc, split_block, try_alloc_with_splitting, request_size, usable_size,
}
use venus_scheduler.Alloc.Malloc.Init.{IsFresh, heap_init-IsFresh}
use venus_scheduler.Alloc.Malloc.Split.{IsBlock}
use venus_scheduler.Alloc.Malloc.FirstFit.{try_alloc_lem, allocated, first_fit, malloc_lem}
use venus_scheduler.Alloc.Free.{free, free_lli, align_lli, lli_request}
use venus_scheduler.Alloc.Free.Lli.{align_lli-fits, free_lli-align_lli}
use venus_scheduler.Alloc.Contract.{
  free_list_insert-IsFreeList, free_list_delete-IsFreeList, split_block-IsBlock,
  merge_free_blocks-IsBlock,
}

abbrev blank : Heap
blank = record {
  mem = λ _. 0;
  alloc_start = 0;
  alloc_end = 0;
  free_list_head = 0;
  free_list_counter = 0;
}

blank-IsMemory : IsMemory blank.mem
blank-IsMemory a = omega arith

-- Two blocks of 16 and 32 bytes behind one another at 0x1004, both allocated with `flag`.
abbrev pair : ℕ → Memory
pair flag a =
    if a == 0x1004
    then 16 + flag
    else if a == 0x1010
    then 16 + flag
    else if a == 0x1014
    then 32 + flag
    else if a == 0x1030
    then 32 + flag
    else 0

pair-IsMemory : IsMemory (pair 1)
pair-IsMemory a = ground arith

-- One free block of 64 bytes at 0x1004.
abbrev one : Memory
one a = if a == 0x1004 then 64 else if a == 0x1040 then 64 else 0

one-IsMemory : IsMemory one
one-IsMemory a = ground arith

one-IsBlock : IsBlock one 0x1004 64 0
one-IsBlock = record {
  place = record { aligned = refl; whole = refl; fits = omega arith };
  least = omega arith;
  head = record { size_bits = refl; flag_bit = refl };
  foot = record { size_bits = refl; flag_bit = refl };
}

pair-front : IsBlock (pair 1) 0x1004 16 1
pair-front = record {
  place = record { aligned = refl; whole = refl; fits = omega arith };
  least = omega arith;
  head = record { size_bits = refl; flag_bit = refl };
  foot = record { size_bits = refl; flag_bit = refl };
}

pair-back : IsBlock (pair 1) 0x1014 32 1
pair-back = record {
  place = record { aligned = refl; whole = refl; fits = omega arith };
  least = omega arith;
  head = record { size_bits = refl; flag_bit = refl };
  foot = record { size_bits = refl; flag_bit = refl };
}

heap_init-IsFresh_test : IsFresh (heap_init 0x1000 0x400 blank)
heap_init-IsFresh_test =
    heap_init-IsFresh blank blank-IsMemory 0x1000 0x400 (omega arith) (omega arith) (omega arith)

-- A ring of the blocks at 0x1004 and 0x1014, and its heap.
abbrev ring : Memory
ring a =
    if a == 0x1008
    then 0x1014
    else if a == 0x100c
    then 0x1014
    else if a == 0x1018
    then 0x1004
    else if a == 0x101c
    then 0x1004
    else 0

abbrev two_free : Heap
two_free = record {
  mem = ring;
  alloc_start = 0xff8;
  alloc_end = 0x1100;
  free_list_head = 0x1004;
  free_list_counter = 2;
}

two_free-IsFreeList : IsFreeList two_free (0x1004 ∷ 0x1014 ∷ [])
two_free-IsFreeList = (
  refl,
  refl,
  ((refl, refl), (refl, refl)),
  (refl, (refl, tt)),
  ((refl, omega arith), ((refl, omega arith), tt)),
)

free_list_insert-IsFreeList_test :
    IsFreeList (free_list_insert two_free 0x1024) (0x1024 ∷ 0x1004 ∷ 0x1014 ∷ [])
    × ((free_list_insert two_free 0x1024).mem 0x1004 ≡ 0)
free_list_insert-IsFreeList_test =
    free_list_insert-IsFreeList two_free (0x1004 ∷ 0x1014 ∷ []) 0x1024 0x1004 two_free-IsFreeList
      (refl, omega arith) refl (omega arith)
      (omega arith, omega arith, (omega arith, omega arith, (omega arith, omega arith, tt)))

free_list_delete-IsFreeList_example :
    IsFreeList (free_list_delete two_free 0x1004) (0x1014 ∷ [])
    × ((free_list_delete two_free 0x1004).mem 0x1004 ≡ 0)
free_list_delete-IsFreeList_example =
    free_list_delete-IsFreeList two_free (0x1004 ∷ 0x1014 ∷ []) 0x1004 0x1004 two_free-IsFreeList
      refl (omega arith) (omega arith, omega arith, (omega arith, omega arith, tt))

split_block-IsBlock_test :
    IsMemory (split_block one 0x1004 24)
    × IsBlock (split_block one 0x1004 24) 0x1004 24 1
    × IsBlock (split_block one 0x1004 24) 0x101c 40 0
    × (split_block one 0x1004 24 0x1008 ≡ 0)
split_block-IsBlock_test =
    split_block-IsBlock one 0x1004 64 24 0x1008 one-IsMemory one-IsBlock refl (omega arith)
      (omega arith) (omega arith) (omega arith) (omega arith) (omega arith)

merge_free_blocks-IsBlock_test :
    IsMemory (merge_free_blocks (pair 1) 0x1004 0x1014)
    × IsBlock (merge_free_blocks (pair 1) 0x1004 0x1014) 0x1004 48 0
    × (merge_free_blocks (pair 1) 0x1004 0x1014 0x1014 ≡ 33)
merge_free_blocks-IsBlock_test =
    merge_free_blocks-IsBlock (pair 1) 0x1004 16 1 32 1 0x1014 pair-IsMemory pair-front pair-back
      (omega arith) (omega arith)

try_alloc_lem_test : try_alloc_with_splitting one 0x1004 24 ≡ (0x1008, split_block one 0x1004 24)
try_alloc_lem_test = try_alloc_lem 24 one-IsMemory one-IsBlock (omega arith) (omega arith)

-- The heap whose only free block is that of `one`.
abbrev one_free : Heap
one_free = record {
  mem = λ a. if a == 0x1008 then 0x1004 else if a == 0x100c then 0x1004 else one a;
  alloc_start = 0xff8;
  alloc_end = 0x1048;
  free_list_head = 0x1004;
  free_list_counter = 1;
}

one_free-IsMemory : IsMemory one_free.mem
one_free-IsMemory a = ground arith

one_free-IsFreeList : IsFreeList one_free (0x1004 ∷ [])
one_free-IsFreeList = (refl, refl, (refl, refl), (refl, tt), ((refl, omega arith), tt))

one_free-IsBlock : IsBlock one_free.mem 0x1004 64 0
one_free-IsBlock = record {
  place = record { aligned = refl; whole = refl; fits = omega arith };
  least = omega arith;
  head = record { size_bits = refl; flag_bit = refl };
  foot = record { size_bits = refl; flag_bit = refl };
}

malloc_lem_test : malloc 9 one_free ≡ some (allocated one_free (request_size 9) (some 0x1004))
unfolding get_blocksize usable_size request_size first_fit align_up
malloc_lem_test =
    malloc_lem one_free (0x1004 ∷ []) 9 one_free-IsMemory one_free-IsFreeList (one_free-IsBlock, tt)

align_lli-fits_example :
    ((align_lli 4112 16 blank).0 % 64 ≡ 0)
    × (4112 ≤ (align_lli 4112 16 blank).0)
    × ((align_lli 4112 16 blank).0 + 64 + 8 ≤ 4112 + lli_request 16)
align_lli-fits_example = align_lli-fits 4112 blank refl (omega arith)

-- A block whose payload stands at 4112.
abbrev taken : Heap
taken = record blank { mem = λ a. if a == 4108 then 121 else 0 }

free_lli-align_lli_example :
    free_lli (align_lli 4112 16 taken).0 (align_lli 4112 16 taken).1
    ≡ free 4112 (align_lli 4112 16 taken).1
free_lli-align_lli_example = free_lli-align_lli 4112 taken refl (omega arith) (omega arith) refl
