-- ===== src/Alloc/Layout/Release/Alone.antt =====
-- Case 1 of `free` in src/mem_alloc.c: both neighbours are allocated.
use venus_scheduler.Prelude.{ℕ, ◌+◌, ◌-◌, ◌≡◌, ◌≢◌, refl, List, [], ◌∷◌, ◌++◌, arith, ◌∙◌}
use venus_scheduler.Alloc.Block.{Memory, Heap, set_allocated}
use venus_scheduler.Alloc.Block.Words.{IsMemory, Boundary, set_allocated_lem}
use venus_scheduler.Alloc.Block.Bounds.{get_footer_lem}
use venus_scheduler.Alloc.Free.{release_alone}
use venus_scheduler.Alloc.Malloc.Split.{IsBlock, keep-Boundary}
use venus_scheduler.Alloc.Layout.{Tile, IsHeap}
use venus_scheduler.Alloc.Layout.Rows.{extent, free_count-append}
use venus_scheduler.Alloc.Layout.OffList.{OffList-none}
use venus_scheduler.Alloc.Layout.Settle.{vacant, Settles, settled-IsHeap}
use venus_scheduler.Alloc.Layout.Release.{used, row_parts, listed_parts, others, Settles-of_run}

module _ (s : Heap) (lo hi n : ℕ) (ls rs : List Tile) (xs : List ℕ)
    (h : IsHeap s lo hi (ls ++ (used n ∷ rs)) xs) where
  abbrev at : ℕ
  at = extent (lo + 12) ls

  block : IsBlock s.mem at n 1
  block = (row_parts s lo hi ls (used n ∷ []) rs xs h).1.0

  abbrev marked : Memory
  marked = set_allocated (set_allocated s.mem at 0) (at + n - 4) 0

  marks :
      IsMemory marked
      × IsBlock marked at n 0
      × ((b : ℕ) → b ≢ at → b ≢ at + n - 4 → marked b ≡ s.mem b)
  marks =
      let (b1, w1, s1) = set_allocated_lem h.words at 0 (omega arith) block.head.size_bits in
      let foot : Boundary (set_allocated s.mem at 0) (at + n - 4) n 1 =
        keep-Boundary block.foot (s1 (at + n - 4) (omega (arith, block.least))) in
      let (b2, w2, s2) = set_allocated_lem w1 (at + n - 4) 0 (omega arith) foot.size_bits in
      (
        w2,
        record {
          place = block.place;
          least = block.least;
          head = keep-Boundary b1 (s2 at (omega (arith, block.least)));
          foot = b2;
        },
        λ b p q. s2 b q ∙ s1 b p,
      )

  alone-Settles : Settles s lo hi ls (used n ∷ []) rs xs s xs marked n
  unfolding others
  alone-Settles =
      Settles-of_run s lo hi ls (used n ∷ []) rs xs h s xs marked n refl
        (OffList-none s lo hi (ls ++ (used n ∷ rs)) xs h) marks.0 marks.1
        (λ b k. marks.2 b (ground arith) (ground arith))
        (λ y. ground (arith, listed_parts s lo hi ls (used n ∷ []) rs xs h y))
        (ground (arith, h.count, free_count-append ls (used n ∷ rs)))

  -- Case 1: the neighbours are allocated.
  pub release_alone-IsHeap : IsHeap (release_alone s at) lo hi (ls ++ (vacant n ∷ rs)) (at ∷ xs)
  unfolding release_alone
  release_alone-IsHeap =
      let footer = get_footer_lem block.place h.words block.head (omega (arith, block.least)) in
      rw footer (settled-IsHeap s lo hi ls (used n ∷ []) rs xs s xs marked n alone-Settles)
