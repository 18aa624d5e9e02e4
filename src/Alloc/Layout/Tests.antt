-- ===== src/Alloc/Layout/Tests.antt =====
-- The heap of 1024 bytes from 4096 on.
use venus_scheduler.Prelude.{
  ◌-◌, ◌⊎◌, true, false, Distinct, has, some, ℕ, ◌+◌, ◌-◌, ◌*◌, ◌/◌, ◌%◌, ◌<◌, ◌≡◌, refl, none, [],
  ◌∷◌, ◌||◌, ◌==◌, if◌then◌else◌, arith,
}
use venus_scheduler.Alloc.Block.{
  Memory, Heap, align_up, align_down, get_blocksize, set_blocksize, get_allocated, set_allocated,
  get_payload, get_header, get_footer, get_nextheader, get_firstblock, get_prologue, get_epilogue,
}
use venus_scheduler.Alloc.FreeList.{
  free_list_insert, free_list_delete, insert_links, get_prevfree, get_nextfree, set_prevfree,
  set_nextfree,
}
use venus_scheduler.Alloc.Malloc.{
  heap_init, init_sentinel, malloc, malloc_loop, take_block, try_alloc_with_splitting, split_block,
  set_boundary, request_size, usable_size,
}
use venus_scheduler.Alloc.Layout.{IsHeap}
use venus_scheduler.Alloc.Layout.Init.{one_tile, heap_init-IsHeap}
use venus_scheduler.Alloc.Layout.Settle.{vacant}
use venus_scheduler.Alloc.Layout.Release.{used}
use venus_scheduler.Alloc.Layout.Free.{Frees, free-IsHeap}
use venus_scheduler.Alloc.Layout.Clients.{Reached, begins, given, Reached-returns}
use venus_scheduler.Alloc.Free.{free}
use venus_scheduler.Alloc.Malloc.Split.{IsBlock}
use venus_scheduler.Alloc.Layout.Malloc.{TakesFirst, malloc-first_fit, malloc-kept}

abbrev blank : Heap
blank = record {
  mem = λ a. 0;
  alloc_start = 0;
  alloc_end = 0;
  free_list_head = 0;
  free_list_counter = 0;
}

abbrev heap : Heap
heap = heap_init 4096 1024 blank

heap-IsHeap :
    IsHeap heap heap.alloc_start heap.alloc_end (one_tile heap) ((heap.alloc_start + 12) ∷ [])
heap-IsHeap =
    heap_init-IsHeap blank 4096 1024 (λ a. omega arith) (omega arith) (omega arith) (omega arith)

area_test : (heap.alloc_start ≡ 4096) × (heap.alloc_end ≡ 5120)
unfolding heap_init init_sentinel align_up align_down free_list_insert
area_test = (refl, refl)

malloc-first_fit_example :
    TakesFirst heap heap.alloc_start heap.alloc_end
      (one_tile heap)
      ((heap.alloc_start + 12) ∷ [])
      100
malloc-first_fit_example =
    malloc-first_fit heap heap.alloc_start heap.alloc_end (one_tile heap)
      ((heap.alloc_start + 12) ∷ []) 100 heap-IsHeap

-- What a request of 100 bytes makes of it.
abbrev after : Heap
after = elim (malloc 100 heap) [ none ↦ blank | some (p, s) ↦ s ]

after_test : malloc 100 heap ≡ some (4112, after)
unfolding malloc malloc_loop take_block try_alloc_with_splitting split_block set_boundary
    request_size usable_size free_list_insert free_list_delete insert_links get_prevfree
    get_nextfree set_prevfree set_nextfree heap_init init_sentinel align_up align_down get_blocksize
    set_blocksize get_allocated set_allocated get_payload get_header get_footer get_nextheader
    get_firstblock get_prologue get_epilogue
after_test = refl

malloc-kept_example : after.mem 4100 ≡ heap.mem 4100
malloc-kept_example =
    malloc-kept heap after heap.alloc_start heap.alloc_end (one_tile heap)
      ((heap.alloc_start + 12) ∷ []) 100 4112 4100 heap-IsHeap (omega arith)
      (omega (arith, area_test)) after_test (ground (arith, area_test))

-- The client holds that block.
holds_one : Reached heap.alloc_start heap.alloc_end heap after (4112 ∷ [])
holds_one = given 100 4112 begins (omega arith) (omega (arith, area_test)) after_test (omega arith)

Reached-returns_example :
    Distinct (4112 ∷ [])
    × ((p : ℕ) → has p (4112 ∷ []) ≡ true → (s' : Heap) × (free p after ≡ some s'))
    × ((size : ℕ)
        → 0 < size
        → size < heap.alloc_end - heap.alloc_start - 16
        → (p : ℕ) × (s' : Heap) × (malloc size after ≡ some (p, s'))
          × (has p (4112 ∷ []) ≡ false ⊎ (p ≡ 0)))
Reached-returns_example =
    Reached-returns heap.alloc_start heap.alloc_end heap after (one_tile heap)
      ((heap.alloc_start + 12) ∷ []) (4112 ∷ []) heap-IsHeap holds_one

-- A heap of 64 bytes with three blocks of 16, of which the middle one is allocated.
abbrev words : Memory
words a =
    if a == 0x1004 || a == 0x1008
    then 9
    else if a == 0x103c
    then 1
    else if a == 0x100c || a == 0x1018 || a == 0x102c || a == 0x1038
    then 16
    else if a == 0x101c || a == 0x1028
    then 17
    else if a == 0x1010 || a == 0x1014
    then 0x102c
    else if a == 0x1030 || a == 0x1034
    then 0x100c
    else 0

abbrev small : Heap
small = record {
  mem = words;
  alloc_start = 0x1000;
  alloc_end = 0x1040;
  free_list_head = 0x100c;
  free_list_counter = 2;
}

small_block :
    (a flag : ℕ)
    → a % 8 ≡ 4
    → a < 5000
    → words a / 8 * 8 ≡ 16
    → words a % 2 ≡ flag
    → words (a + 12) ≡ words a
    → IsBlock words a 16 flag
small_block a flag al low sz fl same = record {
  place = record { aligned = al; whole = refl; fits = omega arith };
  least = omega arith;
  head = record { size_bits = sz; flag_bit = fl };
  foot =
      let foot : a + 16 - 4 ≡ a + 12 = omega arith in
      record { size_bits = rw (foot, same) sz; flag_bit = rw (foot, same) fl };
}

small-IsHeap :
    IsHeap small 0x1000 0x1040 (vacant 16 ∷ used 16 ∷ vacant 16 ∷ []) (0x100c ∷ 0x102c ∷ [])
small-IsHeap = record {
  words = λ a. ground arith;
  starts_at = refl;
  ends_at = refl;
  room = omega arith;
  bound = omega arith;
  prologue_head = record { size_bits = refl; flag_bit = refl };
  prologue_foot = record { size_bits = refl; flag_bit = refl };
  epilogue_head = record { size_bits = refl; flag_bit = refl };
  tiled = (
    small_block 0x100c 0 refl (omega arith) refl refl refl,
    (
      small_block 0x101c 1 refl (omega arith) refl refl refl,
      (small_block 0x102c 0 refl (omega arith) refl refl refl, refl),
    ),
  );
  free_list = (
    refl,
    refl,
    ((refl, refl), (refl, refl)),
    (refl, (refl, tt)),
    ((refl, omega arith), ((refl, omega arith), tt)),
  );
  listed = λ y. ground arith;
  count = refl;
}

-- The three blocks become one of 48 bytes.
free-IsHeap_example : Frees small 0x1000 0x1040 0x101c (vacant 48 ∷ [])
free-IsHeap_example =
    free-IsHeap small 0x1000 0x1040 16 (vacant 16 ∷ []) (vacant 16 ∷ []) (0x100c ∷ 0x102c ∷ [])
      small-IsHeap
