-- ===== src/Alloc/FreeList.antt =====
-- src/mem_free.c: the ring of free blocks, and the merge of two neighbours.
pub mod Chain
pub mod Ring
pub mod Delete
pub mod Frame
use venus_scheduler.Prelude.{ℕ, ◌+◌, ◌-◌, ◌||◌, ◌==◌, if◌then◌else◌, update}
use venus_scheduler.Alloc.Block.{
  Memory, Heap, free_flag, add32, sub32, get_blocksize, set_blocksize, set_allocated, get_footer,
}

-- `!block_header` tests for the address 0.
unfoldable pub get_prevfree : Memory → ℕ → ℕ
get_prevfree m block_header = if block_header == 0 then 0 else m (add32 block_header 4)

unfoldable pub get_nextfree : Memory → ℕ → ℕ
get_nextfree m block_header = if block_header == 0 then 0 else m (add32 block_header 8)

unfoldable pub set_prevfree : Memory → ℕ → ℕ → Memory
set_prevfree m block_header prev_header = update m (add32 block_header 4) prev_header

unfoldable pub set_nextfree : Memory → ℕ → ℕ → Memory
set_nextfree m block_header prev_header = update m (add32 block_header 8) prev_header

-- The writes of `free_list_insert` into a list that is not empty.
unfoldable pub insert_links : Memory → ℕ → ℕ → Memory
insert_links m head block_header =
    let tail = get_prevfree m head in
    let m1 = set_nextfree m block_header head in
    let m2 = set_prevfree m1 head block_header in
    let m3 = set_nextfree m2 tail block_header in set_prevfree m3 block_header tail

unfoldable pub free_list_insert : Heap → ℕ → Heap
free_list_insert s block_header =
    if s.free_list_head == 0 || s.free_list_counter == 0
    then record s {
      mem = set_nextfree (set_prevfree s.mem block_header block_header) block_header block_header;
      free_list_head = block_header;
      free_list_counter = 1;
    }
    else record s {
      mem = insert_links s.mem s.free_list_head block_header;
      free_list_head = block_header;
      free_list_counter = add32 s.free_list_counter 1;
    }

unfoldable pub free_list_delete : Heap → ℕ → Heap
free_list_delete s block_header =
    let prev_header = get_prevfree s.mem block_header in
    let next_header = get_nextfree s.mem block_header in
    if s.free_list_head == 0 || s.free_list_counter == 0
    then s
    else if s.free_list_counter == 1
    then record s { free_list_head = 0; free_list_counter = 0 }
    else record s {
      mem = set_nextfree (set_prevfree s.mem next_header prev_header) prev_header next_header;
      free_list_head = if block_header == s.free_list_head then next_header else s.free_list_head;
      free_list_counter = sub32 s.free_list_counter 1;
    }

-- The memory after the merge; the C function returns `low_header`.
unfoldable pub merge_free_blocks : Memory → ℕ → ℕ → Memory
merge_free_blocks m low_header high_header =
    let blocksize = add32 (get_blocksize m low_header) (get_blocksize m high_header) in
    let m1 = set_blocksize m low_header blocksize in
    let m2 = set_allocated m1 low_header free_flag in
    let high_footer = get_footer m2 high_header in
    let m3 = set_blocksize m2 high_footer blocksize in set_allocated m3 high_footer free_flag
