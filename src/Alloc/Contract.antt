-- ===== src/Alloc/Contract.antt =====
-- What the allocator's parts promise one another, with the words that each leaves alone.
use venus_scheduler.Prelude.{
  ℕ, ◌+◌, ◌-◌, ◌%◌, ◌^◌, ◌<◌, ◌≤◌, ◌≡◌, ◌≢◌, true, false, List, ◌∷◌, length, erase, has,
}
use venus_scheduler.Alloc.Block.{Memory, Heap}
use venus_scheduler.Alloc.Block.Words.{IsMemory}
use venus_scheduler.Alloc.FreeList.{free_list_insert, free_list_delete, merge_free_blocks}
use venus_scheduler.Alloc.FreeList.Chain.{IsNode}
use venus_scheduler.Alloc.FreeList.Ring.{IsFreeList, Outside, free_list_insert_lem}
use venus_scheduler.Alloc.FreeList.Delete.{free_list_delete_lem}
use venus_scheduler.Alloc.Malloc.{split_block}
use venus_scheduler.Alloc.Malloc.Split.{IsBlock, split_block_lem}
use venus_scheduler.Alloc.Malloc.Merge.{merge_free_blocks_lem}

-- Inserting a block at a header that is not in the ring puts it before the others, counts it,
-- keeps the links in order, and changes no word `b` outside the links of the ring and the block,
-- while the counter has room.
pub free_list_insert-IsFreeList :
    (s : Heap) (xs : List ℕ) (n b : ℕ)
    → IsFreeList s xs
    → IsNode n
    → has n xs ≡ false
    → length xs + 1 < 2 ^ 32
    → Outside (n ∷ xs) b
    → IsFreeList (free_list_insert s n) (n ∷ xs) × ((free_list_insert s n).mem b ≡ s.mem b)
free_list_insert-IsFreeList s xs n b f node new small out =
    let done = free_list_insert_lem s xs n f node new small in (done.0, done.1 b out)

-- Deleting a block of the ring, of fewer than 2^32, leaves the others linked in their order,
-- counted, and changes no word `b` outside the links of the ring.
pub free_list_delete-IsFreeList :
    (s : Heap) (xs : List ℕ) (x b : ℕ)
    → IsFreeList s xs
    → has x xs ≡ true
    → length xs < 2 ^ 32
    → Outside xs b
    → IsFreeList (free_list_delete s x) (erase x xs) × ((free_list_delete s x).mem b ≡ s.mem b)
free_list_delete-IsFreeList s xs x b f i small out =
    let done = free_list_delete_lem s xs x f i small in (done.0, done.1 b out)

-- Splitting a free block gives an allocated block of the requested size at its start and a free
-- block of the rest behind it, and changes no word `b` but their four boundary words, if the
-- request is a multiple of 8 and both parts have 16 bytes or more.
pub split_block-IsBlock :
    (m : Memory) (header size request b : ℕ)
    → IsMemory m
    → IsBlock m header size 0
    → request % 8 ≡ 0
    → 16 ≤ request
    → request + 16 ≤ size
    → b ≢ header
    → b ≢ header + request - 4
    → b ≢ header + request
    → b ≢ header + size - 4
    → IsMemory (split_block m header request)
      × IsBlock (split_block m header request) header request 1
      × IsBlock (split_block m header request) (header + request) (size - request) 0
      × (split_block m header request b ≡ m b)
split_block-IsBlock m header size request b w block whole least room p q r t =
    let (words, front, back, same) = split_block_lem request w block whole least room in
    (words, front, back, same b p q r t)

-- Merging a block with the one behind it, on a memory of 32-bit words, gives one free block of
-- both sizes, and changes no word `b` but its two boundary words.
pub merge_free_blocks-IsBlock :
    (m : Memory) (low size1 flag1 size2 flag2 b : ℕ)
    → IsMemory m
    → IsBlock m low size1 flag1
    → IsBlock m (low + size1) size2 flag2
    → b ≢ low
    → b ≢ low + size1 + size2 - 4
    → IsMemory (merge_free_blocks m low (low + size1))
      × IsBlock (merge_free_blocks m low (low + size1)) low (size1 + size2) 0
      × (merge_free_blocks m low (low + size1) b ≡ m b)
merge_free_blocks-IsBlock m low size1 flag1 size2 flag2 b w b1 b2 p q =
    let (words, block, same) = merge_free_blocks_lem w b1 b2 in (words, block, same b p q)
