-- ===== src/Pages.antt =====
-- src/falloc.c: the allocator of 256-byte pages. A descriptor is the flags byte of its page, and a
-- pointer to a descriptor is the page's index in the table at HEAP_START. Descriptors past the table
-- are whatever bytes lie there. HEAP_START is a parameter: the linker script gives it.
pub mod Layout
pub mod Malloc
pub mod Free
pub mod Init
pub mod Calls
pub mod Oversize
mod Tests
use Prim.Native.Nat.{bit_and, bit_or}
use venus_scheduler.Prelude.{
  ℕ, zero, suc, ◌+◌, ◌-◌, ◌*◌, ◌/◌, ◌%◌, ◌^◌, Bool, true, false, not, ◌&&◌, ◌||◌, Option, none,
  some, ◌==◌, leb, if◌then◌else◌, update,
}

abbrev pub page_size : ℕ
page_size = 256

abbrev pub meta_size : ℕ
meta_size = 2048

abbrev pub page_taken : ℕ
page_taken = 1

abbrev pub page_last : ℕ
page_last = 2

-- A pointer in C has 32 bits.
abbrev pub address_space : ℕ
address_space = 0x100000000

pub record PageHeap : Type 0 where
  pub alloc_start : ℕ
  pub alloc_end : ℕ
  pub num_pages : ℕ
  pub flags : ℕ → ℕ

unfoldable pub clear : (ℕ → ℕ) → ℕ → ℕ → ℕ
clear flags page = update flags page 0

unfoldable pub is_free : (ℕ → ℕ) → ℕ → Bool
is_free flags page = bit_and (flags page) page_taken == 0

unfoldable pub set_flag : (ℕ → ℕ) → ℕ → ℕ → ℕ → ℕ
set_flag flags page bits = update flags page (bit_or (flags page) bits)

unfoldable pub is_last : (ℕ → ℕ) → ℕ → Bool
is_last flags page = not (bit_and (flags page) page_last == 0)

unfoldable pub align_page : ℕ → ℕ
align_page address = bit_and ((address + 255) % address_space) (address_space - 1 - 255)

unfoldable pub clear_pages : ℕ → (ℕ → ℕ) → ℕ → ℕ → ℕ
clear_pages zero flags page = flags
clear_pages (suc left) flags page = clear_pages left (clear flags page) (page + 1)

-- The number of pages is set twice, the second time to 1000. The bytes are those at HEAP_START.
unfoldable pub page_heap_init : ℕ → (ℕ → ℕ) → PageHeap
page_heap_init heap_start bytes =
    let start = align_page ((heap_start + meta_size * page_size) % address_space) in
    record {
      alloc_start = start;
      alloc_end = (start + page_size * 1000) % address_space;
      num_pages = 1000;
      flags = clear_pages 1000 bytes 0;
    }

-- The inner loop of `malloc`: whether the next pages are free as well.
unfoldable pub run_free : ℕ → (ℕ → ℕ) → ℕ → Bool
run_free zero flags j = true
run_free (suc left) flags j =
    let rest = run_free left flags (j + 1) in if not (is_free flags j) then false else rest

unfoldable pub take_run : ℕ → (ℕ → ℕ) → ℕ → ℕ → ℕ
take_run zero flags k = flags
take_run (suc left) flags k = take_run left (set_flag flags k page_taken) (k + 1)

-- The outer loop: the first page of the block and the table with its pages taken.
unfoldable pub page_search : ℕ → (ℕ → ℕ) → ℕ → ℕ → Option (ℕ × (ℕ → ℕ))
page_search zero flags npages i = none
page_search (suc left) flags npages i =
    elim (is_free flags i && run_free (npages - 1) flags (i + 1)) [
      | true ↦ some (i, set_flag (take_run npages flags i) (i + npages - 1) page_last)
      | false ↦ page_search left flags npages (i + 1)
    ]

unfoldable pub pages_for : ℕ → ℕ
pages_for size = (size + address_space - 1) % address_space / page_size + 1

-- The last index tried, an unsigned difference.
unfoldable pub last_start : ℕ → ℕ → ℕ
last_start num npages = (num + address_space - npages) % address_space

unfoldable pub found_block : PageHeap → Option (ℕ × (ℕ → ℕ)) → PageHeap × ℕ
found_block s none = (s, 0)
found_block s (some (i, flags)) =
    (record s { flags = flags }, (s.alloc_start + i * page_size) % address_space)

unfoldable pub page_malloc : PageHeap → ℕ → PageHeap × ℕ
page_malloc s size =
    let npages = pages_for size in
    found_block s (page_search (last_start s.num_pages npages + 1) s.flags npages 0)

unfoldable pub clear_run : ℕ → (ℕ → ℕ) → ℕ → Option (ℕ → ℕ)
clear_run zero flags page = none
clear_run (suc fuel) flags page =
    let cleared = clear flags page in
    let rest = clear_run fuel cleared (page + 1) in
    if is_free flags page then some flags else if is_last flags page then some cleared else rest

unfoldable pub with_flags : PageHeap → Option (ℕ → ℕ) → Option PageHeap
with_flags s none = none
with_flags s (some flags) = some (record s { flags = flags })

unfoldable pub page_free : ℕ → PageHeap → ℕ → Option PageHeap
page_free fuel s ptr =
    let page = (ptr + address_space - s.alloc_start) % address_space / page_size in
    if (ptr == 0) || leb s.alloc_end ptr then some s else with_flags s (clear_run fuel s.flags page)

unfoldable pub page_malloc_lli : PageHeap → PageHeap × ℕ
page_malloc_lli s = page_malloc s 64

unfoldable pub page_free_lli : ℕ → PageHeap → ℕ → Option PageHeap
page_free_lli fuel s ptr = page_free fuel s ptr
