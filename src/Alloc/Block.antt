-- ===== src/Alloc/Block.antt =====
-- src/mem_block.c and include/allocator.h: the words that bound a block.
-- The memory gives the 32-bit word at each address that is a multiple of four; every address
-- below is one. Sums and differences of `uint32_t` wrap.
pub mod Words
pub mod Bounds
use Prim.Native.Nat.{bit_and, bit_or}
use venus_scheduler.Prelude.{ℕ, ◌+◌, ◌-◌, ◌*◌, ◌/◌, ◌%◌, ◌^◌, update}

abbrev pub Memory : Type 0
Memory = ℕ → ℕ

-- The memory, and the four variables of src/mem_alloc.c.
pub record Heap : Type 0 where
  pub mem : Memory
  pub alloc_start : ℕ
  pub alloc_end : ℕ
  pub free_list_head : ℕ
  pub free_list_counter : ℕ

abbrev pub free_flag : ℕ
free_flag = 0

abbrev pub allocated_flag : ℕ
allocated_flag = 1

abbrev pub min_blocksize : ℕ
min_blocksize = 16

abbrev pub boundary_size : ℕ
boundary_size = 8

abbrev pub lli_size : ℕ
lli_size = 64

abbrev pub add32 : ℕ → ℕ → ℕ
add32 a b = (a + b) % 2 ^ 32

abbrev pub sub32 : ℕ → ℕ → ℕ
sub32 a b = (a + 2 ^ 32 - b) % 2 ^ 32

-- `n * ((x + n - 1) / n)`
unfoldable pub align_up : ℕ → ℕ → ℕ
align_up x n = n * (sub32 (add32 x n) 1 / n) % 2 ^ 32

unfoldable pub align_down : ℕ → ℕ → ℕ
align_down x n = n * (x / n) % 2 ^ 32

unfoldable pub get_prologue : Heap → ℕ
get_prologue s = add32 s.alloc_start 4

unfoldable pub get_epilogue : Heap → ℕ
get_epilogue s = sub32 s.alloc_end 4

-- The word operations act on the memory alone.
unfoldable pub get_blocksize : Memory → ℕ → ℕ
get_blocksize m boundary_addr = bit_and (m boundary_addr) 0xfffffff8

unfoldable pub set_blocksize : Memory → ℕ → ℕ → Memory
set_blocksize m boundary_addr blocksize =
    update m boundary_addr (bit_or (bit_and (m boundary_addr) 0x7) blocksize)

unfoldable pub get_allocated : Memory → ℕ → ℕ
get_allocated m boundary_addr = bit_and (m boundary_addr) 0x1

unfoldable pub set_allocated : Memory → ℕ → ℕ → Memory
set_allocated m boundary_addr allocated =
    update m boundary_addr (bit_or (bit_and (m boundary_addr) 0xfffffffe) (bit_and allocated 0x1))

unfoldable pub get_payload : ℕ → ℕ
get_payload hp_addr = align_up hp_addr 8

unfoldable pub get_header : ℕ → ℕ
get_header hp_addr = sub32 (align_up hp_addr 8) 4

unfoldable pub get_footer : Memory → ℕ → ℕ
get_footer m hp_addr =
    let header_addr = get_header hp_addr in
    sub32 (add32 header_addr (get_blocksize m header_addr)) 4

unfoldable pub get_nextheader : Memory → ℕ → ℕ
get_nextheader m hp_addr =
    let header_addr = get_header hp_addr in
    let block_size = get_blocksize m header_addr in add32 header_addr block_size

unfoldable pub get_prevheader : Memory → ℕ → ℕ
get_prevheader m hp_addr =
    let header_addr = get_header hp_addr in
    let prev_footer_addr = sub32 header_addr 4 in
    let prev_blocksize = get_blocksize m prev_footer_addr in sub32 header_addr prev_blocksize

unfoldable pub get_firstblock : Heap → ℕ
get_firstblock s = add32 (get_prologue s) 8

unfoldable pub get_lastblock : Heap → ℕ
get_lastblock s = get_prevheader s.mem (get_epilogue s)
