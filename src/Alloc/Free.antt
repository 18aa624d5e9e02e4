-- ===== src/Alloc/Free.antt =====
-- `free`, `malloc_LLI` and `free_LLI` of src/mem_alloc.c. `none` is an assertion that fails.
pub mod Lli
use Prim.Native.Nat.{bit_and}
use venus_scheduler.Prelude.{
  ℕ, zero, suc, ◌+◌, ◌*◌, ◌%◌, ◌&&◌, Option, none, some, ◌==◌, leb, if◌then◌else◌, update,
}
use venus_scheduler.Alloc.Block.{
  Heap, free_flag, allocated_flag, min_blocksize, boundary_size, lli_size, add32, sub32,
  get_blocksize, get_allocated, set_allocated, get_payload, get_header, get_footer, get_nextheader,
  get_prevheader,
}
use venus_scheduler.Alloc.FreeList.{
  get_nextfree, free_list_insert, free_list_delete, merge_free_blocks,
}
use venus_scheduler.Alloc.Malloc.{try_alloc_with_splitting, take_block}

-- Case 1: both neighbours are allocated.
unfoldable pub release_alone : Heap → ℕ → Heap
release_alone s req_header =
    let req_footer = get_footer s.mem req_header in
    let m = set_allocated (set_allocated s.mem req_header free_flag) req_footer free_flag in
    free_list_insert (record s { mem = m }) req_header

-- Case 2: the block is merged with the free one behind it.
unfoldable pub release_next : Heap → (req_header next_header : ℕ) → Heap
release_next s req_header next_header =
    let s1 = free_list_delete s next_header in
    let m = merge_free_blocks s1.mem req_header next_header in
    free_list_insert (record s1 { mem = m }) req_header

-- Case 3: the block is merged with the free one before it.
unfoldable pub release_prev : Heap → (req_header prev_header : ℕ) → Heap
release_prev s req_header prev_header =
    let s1 = free_list_delete s prev_header in
    let m = merge_free_blocks s1.mem prev_header req_header in
    free_list_insert (record s1 { mem = m }) prev_header

-- Case 4: with both.
unfoldable pub release_both : Heap → (req_header next_header prev_header : ℕ) → Option Heap
release_both s req_header next_header prev_header =
    let s1 = free_list_delete s next_header in
    let s2 = free_list_delete s1 prev_header in
    let m1 = merge_free_blocks s2.mem prev_header req_header in
    let m2 = merge_free_blocks m1 prev_header next_header in
    let s3 = free_list_insert (record s2 { mem = m2 }) prev_header in
    if leb 1 s3.free_list_counter then some s3 else none

unfoldable pub free : ℕ → Heap → Option Heap
free ptr s =
    if ptr == 0
    then some s
    else let req_header = get_header ptr in
      let next_header = get_nextheader s.mem req_header in
      let prev_header = get_prevheader s.mem req_header in
      let next_allocated = get_allocated s.mem next_header in
      let prev_allocated = get_allocated s.mem prev_header in
      if (get_allocated s.mem req_header == allocated_flag)
        && leb min_blocksize (get_blocksize s.mem req_header)
      then (if (next_allocated == allocated_flag) && (prev_allocated == allocated_flag)
          then some (release_alone s req_header)
          else if (next_allocated == free_flag) && (prev_allocated == allocated_flag)
          then some (release_next s req_header next_header)
          else if (next_allocated == allocated_flag) && (prev_allocated == free_flag)
          then some (release_prev s req_header prev_header)
          else if (next_allocated == free_flag) && (prev_allocated == free_flag)
          then release_both s req_header next_header prev_header
          else none)
      else none

-- What the payload's address lacks to a multiple of 64 goes on top of the request.
unfoldable pub lli_request : ℕ → ℕ
lli_request unaligned_size =
    if unaligned_size == 0
    then lli_size + boundary_size
    else sub32 (lli_size * 2) unaligned_size + boundary_size

-- The aligned address, and the heap with the payload's own address stored before it.
unfoldable pub align_lli : ℕ → ℕ → Heap → ℕ × Heap
align_lli payload unaligned_size s =
    if unaligned_size == 0
    then (payload, s)
    else let aligned = sub32 (add32 payload 64) unaligned_size in
      (aligned, record s { mem = update s.mem (sub32 aligned 4) payload })

unfoldable pub malloc_lli_loop : ℕ → ℕ → Heap → ℕ × Heap
malloc_lli_loop zero block_header s = (0, s)
malloc_lli_loop (suc i) block_header s =
    let old_blocksize = get_blocksize s.mem block_header in
    let unaligned_size = get_payload block_header % lli_size in
    let (payload, m) = try_alloc_with_splitting s.mem block_header (lli_request unaligned_size) in
    let next = malloc_lli_loop i (get_nextfree m block_header) (record s { mem = m }) in
    if payload == 0
    then next
    else align_lli payload unaligned_size
        (take_block (record s { mem = m }) block_header old_blocksize)

-- The address of a descriptor that is aligned to 64 bytes, NULL if no block serves.
unfoldable pub malloc_lli : Heap → ℕ × Heap
malloc_lli s = malloc_lli_loop s.free_list_counter s.free_list_head s

-- An odd word before the descriptor is its header; an even one is the payload's address.
unfoldable pub free_lli : ℕ → Heap → Option Heap
free_lli ptr s =
    let last_byte = s.mem (sub32 ptr 4) in
    if bit_and last_byte 0x1 == 0 then free last_byte s else free ptr s
