-- ===== src/Alloc/Malloc.antt =====
-- src/mem_alloc.c: the heap's first state, allocation and release.
-- `none` is an assertion that fails, after which the program spins; messages are left out. The
-- tests of the file (`malloc_test`, `malloc_64_test`, `print_heap`) are not modelled.
pub mod Split
pub mod Merge
pub mod Init
pub mod FirstFit
use Prim.Native.Nat.{bit_and}
use venus_scheduler.Prelude.{
  ℕ, zero, suc, ◌+◌, ◌-◌, ◌*◌, ◌%◌, Bool, true, false, not, ◌&&◌, Option, none, some, ◌==◌, ltb,
  leb, if◌then◌else◌, update,
}
use venus_scheduler.Alloc.Block.{
  Memory, Heap, free_flag, allocated_flag, min_blocksize, boundary_size, lli_size, add32, sub32,
  align_up, align_down, get_prologue, get_epilogue, get_blocksize, set_blocksize, get_allocated,
  set_allocated, get_payload, get_header, get_footer, get_nextheader, get_prevheader,
  get_firstblock,
}
use venus_scheduler.Alloc.FreeList.{
  get_nextfree, set_prevfree, set_nextfree, free_list_insert, free_list_delete, merge_free_blocks,
}

-- `set_allocated` and then `set_blocksize`, as everywhere in this file
unfoldable pub set_boundary : Memory → ℕ → ℕ → ℕ → Memory
set_boundary m addr allocated blocksize =
    set_blocksize (set_allocated m addr allocated) addr blocksize

-- alloc_end - alloc_start - 4 - 8 - 4
unfoldable pub usable_size : Heap → ℕ
usable_size s = sub32 (sub32 (sub32 (sub32 s.alloc_end s.alloc_start) 4) 8) 4

unfoldable pub init_sentinel : Heap → Heap
init_sentinel s =
    let prologue_header = get_prologue s in
    let m1 = set_boundary s.mem prologue_header allocated_flag 8 in
    let prologue_footer = add32 prologue_header 4 in
    let m2 = set_boundary m1 prologue_footer allocated_flag 8 in
    let epilogue_header = get_epilogue s in
    let m3 = set_boundary m2 epilogue_header allocated_flag 0 in
    let first_header = get_firstblock s in
    let m4 = set_boundary m3 first_header free_flag (usable_size s) in
    let first_footer = get_footer m4 first_header in
    record s { mem = set_boundary m4 first_footer free_flag (usable_size s) }

-- HEAP_START and HEAP_SIZE come from the linker script.
unfoldable pub heap_init : ℕ → ℕ → Heap → Heap
heap_init heap_start heap_size s =
    let s1 = init_sentinel (record s {
      alloc_start = align_up heap_start 8;
      alloc_end = align_down (add32 heap_start heap_size) 8;
    }) in
    let first_block = get_firstblock s1 in
    let m = set_nextfree (set_prevfree s1.mem first_block first_block) first_block first_block in
    free_list_insert (record s1 { mem = m; free_list_head = 0; free_list_counter = 0 }) first_block

-- The memory after the block is split; only the boundary words change.
unfoldable pub split_block : Memory → ℕ → ℕ → Memory
split_block m block_header request_blocksize =
    let blocksize = get_blocksize m block_header in
    let new_footer = get_footer m block_header in
    let m1 = set_blocksize m new_footer (sub32 blocksize request_blocksize) in
    let m2 = set_boundary m1 block_header allocated_flag request_blocksize in
    let block_footer = get_footer m2 block_header in
    let m3 = set_boundary m2 block_footer allocated_flag request_blocksize in
    let new_header = get_nextheader m3 block_header in
    set_boundary m3 new_header free_flag (sub32 blocksize request_blocksize)

-- The payload's address, 0 if the block does not serve, and the memory.
unfoldable pub try_alloc_with_splitting : Memory → ℕ → ℕ → ℕ × Memory
try_alloc_with_splitting m block_header request_blocksize =
    if ltb request_blocksize min_blocksize
    then (0, m)
    else let blocksize = get_blocksize m block_header in
      let allocated = get_allocated m block_header in
      if (allocated == free_flag) && leb request_blocksize blocksize
      then (if leb min_blocksize (sub32 blocksize request_blocksize)
          then (get_payload block_header, split_block m block_header request_blocksize)
          else (0, m))
      else (0, m)

-- What `malloc` and `malloc_LLI` do with a block that served: it leaves the free list, and what is
-- left of it enters.
unfoldable pub take_block : Heap → ℕ → ℕ → Heap
take_block s block_header old_blocksize =
    let cur_blocksize = get_blocksize s.mem block_header in
    let s1 = free_list_delete s block_header in
    if ltb cur_blocksize old_blocksize
    then free_list_insert s1 (get_nextheader s1.mem block_header)
    else s1

-- The loop of `malloc`, over the rounds left.
unfoldable pub malloc_loop : ℕ → ℕ → ℕ → Heap → ℕ × Heap
malloc_loop zero request_blocksize block_header s = (0, s)
malloc_loop (suc i) request_blocksize block_header s =
    let old_blocksize = get_blocksize s.mem block_header in
    let (payload, m) = try_alloc_with_splitting s.mem block_header request_blocksize in
    let next =
      malloc_loop i request_blocksize (get_nextfree m block_header) (record s { mem = m }) in
    if payload == 0
    then next
    else (payload, take_block (record s { mem = m }) block_header old_blocksize)

unfoldable pub request_size : ℕ → ℕ
request_size size =
    let request_blocksize = add32 (align_up size 8) boundary_size in
    if ltb request_blocksize min_blocksize then min_blocksize else request_blocksize

-- The address, NULL if no block serves.
unfoldable pub malloc : ℕ → Heap → Option (ℕ × Heap)
malloc size s =
    if ltb 0 size && ltb size (usable_size s)
    then some (malloc_loop s.free_list_counter (request_size size) s.free_list_head s)
    else none
