-- ===== src/Alloc/Layout/Init.antt =====
-- `heap_init` of src/mem_alloc.c makes a whole heap.
use venus_scheduler.Prelude.{ℕ, ◌+◌, ◌-◌, ◌^◌, ◌<◌, ◌≤◌, refl, false, List, [], ◌∷◌, arith}
use venus_scheduler.Alloc.Block.{Heap}
use venus_scheduler.Alloc.Block.Words.{IsMemory}
use venus_scheduler.Alloc.Malloc.{heap_init}
use venus_scheduler.Alloc.Malloc.Init.{IsFresh, heap_init-IsFresh}
use venus_scheduler.Alloc.Layout.{Tile, IsHeap}

abbrev pub one_tile : Heap → List Tile
one_tile s = record { size = s.alloc_end - s.alloc_start - 16; used = false } ∷ []

fresh-IsHeap :
    (s : Heap)
    → IsFresh s
    → IsHeap s s.alloc_start s.alloc_end (one_tile s) ((s.alloc_start + 12) ∷ [])
fresh-IsHeap s f =
    let place = f.block.place in
    record {
      words = f.words;
      starts_at = refl;
      ends_at = refl;
      room = omega (arith, f.block.least);
      bound = omega (arith, f.block.least);
      prologue_head = f.prologue_head;
      prologue_foot = f.prologue_foot;
      epilogue_head = f.epilogue_head;
      tiled = (f.block, omega (arith, f.block.least));
      free_list = f.free_list;
      listed = λ y. ground arith;
      count = refl;
    }

pub heap_init-IsHeap :
    (s : Heap) (heap_start heap_size : ℕ)
    → IsMemory s.mem
    → heap_start < 2 ^ 32 - 64
    → 64 ≤ heap_size
    → heap_start + heap_size < 2 ^ 32 - 64
    → let g = heap_init heap_start heap_size s in
      IsHeap g g.alloc_start g.alloc_end (one_tile g) ((g.alloc_start + 12) ∷ [])
heap_init-IsHeap s heap_start heap_size w start_in room fits =
    fresh-IsHeap (heap_init heap_start heap_size s)
      (heap_init-IsFresh s w heap_start heap_size start_in room fits)
