-- ===== src/Alloc/Layout/Taken.antt =====
-- The heap after a block was taken for a request.
use venus_scheduler.Prelude.{
  ℕ, ◌+◌, ◌-◌, ◌<◌, ◌≤◌, ◌≡◌, ◌≢◌, refl, true, false, List, ◌∷◌, ◌==◌, arith, ltb, Bool-cases, inl,
  inr, eq_of_==, ◌∙◌, sym, erase, has, has-erase, has-erase-Distinct, length-erase, not-has-erase,
}
use venus_scheduler.Alloc.Block.{Heap, get_blocksize, get_nextheader}
use venus_scheduler.Alloc.Block.Words.{IsMemory, Boundary, get_blocksize_lem}
use venus_scheduler.Alloc.Block.Bounds.{get_nextheader_lem}
use venus_scheduler.Alloc.FreeList.{free_list_delete, free_list_insert}
use venus_scheduler.Alloc.FreeList.Chain.{IsNode}
use venus_scheduler.Alloc.FreeList.Ring.{IsFreeList, Outside, free_list_insert_lem}
use venus_scheduler.Alloc.FreeList.Frame.{
  SameArea, Outside-of_all, free_list_insert_frame, head-bound, Distinct-of_list,
}
use venus_scheduler.Alloc.Malloc.{split_block, take_block}
use venus_scheduler.Alloc.Malloc.Split.{IsBlock, keep-Boundary}
use venus_scheduler.Alloc.Layout.{Tile, Tiled, free_starts, in_free, tile_size, split_tile, IsHeap}
use venus_scheduler.Alloc.Layout.Tiles.{starts-of_free, keep-Tiled, free_start-IsBlock}
use venus_scheduler.Alloc.Layout.Split.{boundary-split, free_starts-split, free_count-split}
use venus_scheduler.Alloc.Layout.Pieces.{tile_size-blocksize, starts-inside}
use venus_scheduler.Alloc.Layout.Inside.{in_free-bounds, in_free-of_start}
use venus_scheduler.Alloc.Layout.Allocate.{
  Serves, free_x, free-of_listed, size_eq, fits, split, halved-Tiled, apart, few, deleted,
  deleted_frame,
}

module _ (s : Heap) (lo hi : ℕ) (ts : List Tile) (xs : List ℕ) (x request : ℕ)
    (q : Serves s lo hi ts xs x request) where
  open q use {heap, free_block, least, whole, room}

  abbrev pub first : ℕ
  first = lo + 12

  abbrev pub last : ℕ
  last = hi - 4

  abbrev pub size : ℕ
  size = get_blocksize s.mem x

  abbrev pub rest : ℕ
  rest = x + request

  abbrev pub halved : Heap
  halved = record s { mem = split_block s.mem x request }

  abbrev pub without : Heap
  without = free_list_delete halved x

  abbrev pub taken : Heap
  taken = free_list_insert without rest

  parts : IsBlock halved.mem x request 1 × IsBlock halved.mem rest (size - request) 0
  parts = let p = split s lo hi ts xs x request q in (p.1, p.2)

  rest-IsNode : IsNode rest
  rest-IsNode = let p = parts.1.place in omega arith

  rest_new : has rest xs ≡ false
  rest_new =
      let inside =
        starts-inside s.mem last x request first ts heap.tiled (omega arith)
          (omega (arith, fits s lo hi ts xs x request q)) in
      ground (arith, heap.listed rest, inside, starts-of_free rest first ts)

  inserted :
      IsFreeList taken (rest ∷ erase x xs)
      × ((b : ℕ) → Outside (rest ∷ erase x xs) b → taken.mem b ≡ without.mem b)
  inserted =
      let d = deleted s lo hi ts xs x request q in
      free_list_insert_lem without (erase x xs) rest d.0 rest-IsNode
        (not-has-erase x rest xs rest_new)
        (omega (arith, length-erase x xs free_block, few s lo hi ts xs x request q))

  inserted_frame : IsMemory taken.mem × SameArea without taken
  inserted_frame =
      let d = deleted s lo hi ts xs x request q in
      free_list_insert_frame without rest (deleted_frame s lo hi ts xs x request q).0
        (head-bound without (erase x xs) d.0) (omega (arith, rest-IsNode))

  -- Where no link of the blocks stands, the list operations write nothing.
  kept_off_links :
      (b : ℕ)
      → ((y : ℕ) → has y (rest ∷ xs) ≡ true → (b ≢ y + 4) × (b ≢ y + 8))
      → taken.mem b ≡ halved.mem b
  kept_off_links b out =
      inserted.1 b
        (Outside-of_all (rest ∷ erase x xs) b (λ y j. out y (ground (arith, has-erase x y xs))))
      ∙ (deleted s lo hi ts xs x request q).1 b (Outside-of_all xs b (λ y j. out y (ground arith)))

  taken-Tiled : Tiled taken.mem first (split_tile x request first ts) last
  taken-Tiled =
      keep-Tiled halved.mem taken.mem last first (split_tile x request first ts)
        (halved-Tiled s lo hi ts xs x request q)
        (λ b k. kept_off_links b (λ y j. apart s lo hi ts xs x request q y b j k))

  listed-least : (y : ℕ) → has y xs ≡ true → 16 ≤ tile_size y first ts
  listed-least y j =
      let free = free-of_listed s lo hi ts xs x request q y j in
      let at_y = free_start-IsBlock s.mem last y first ts heap.words heap.tiled free in
      omega (
        arith,
        at_y.least,
        tile_size-blocksize s.mem last y first ts heap.words heap.tiled
            (starts-of_free y first ts free),
      )

  -- A word outside the free blocks stays.
  pub taken-kept : (b : ℕ) → in_free b first ts ≡ false → taken.mem b ≡ s.mem b
  taken-kept b out =
      kept_off_links b links
      ∙ (split s lo hi ts xs x request q).3 b at_x at_front (in_x request (omega arith)) at_back
    where
      ne_inside : (y d : ℕ) → has y xs ≡ true → d < tile_size y first ts → b ≢ y + d
      ne_inside y d j less e =
          let inside =
            in_free-of_start s.mem last y b first ts heap.tiled
              (free-of_listed s lo hi ts xs x request q y j) (omega arith) (omega arith) in
          ground (arith, inside)

      in_x : (d : ℕ) → d < size → b ≢ x + d
      in_x d less = ne_inside x d free_block (omega (arith, size_eq s lo hi ts xs x request q))

      at_x : b ≢ x
      at_x = let at_0 = in_x 0 (omega arith) in omega arith

      at_front : b ≢ x + request - 4
      at_front = let at = in_x (request - 4) (omega arith) in omega arith

      at_back : b ≢ x + size - 4
      at_back = let at = in_x (size - 4) (omega arith) in omega arith

      links : (y : ℕ) → has y (rest ∷ xs) ≡ true → (b ≢ y + 4) × (b ≢ y + 8)
      links y j = elim (Bool-cases (y == rest)) [
        | inl e ↦
            let same = eq_of_== y rest e in
            let four = in_x (request + 4) (omega arith) in
            let eight = in_x (request + 8) (omega arith) in (omega arith, omega arith)
        | inr ne ↦
            let old : has y xs ≡ true = ground arith in
            let big = listed-least y old in
            (ne_inside y 4 old (omega arith), ne_inside y 8 old (omega arith))
      ]

  taken-listed :
      (y : ℕ) → has y (rest ∷ erase x xs) ≡ free_starts y first (split_tile x request first ts)
  taken-listed y = ground (
    arith,
    heap.listed y,
    has-erase-Distinct x y xs (Distinct-of_list s xs heap.free_list),
    free_starts-split x request least s.mem last y first ts heap.tiled
        (free_x s lo hi ts xs x request q) (fits s lo hi ts xs x request q),
  )

  pub taken-IsHeap : IsHeap taken lo hi (split_tile x request first ts) (rest ∷ erase x xs)
  taken-IsHeap = record {
    words = inserted_frame.0;
    starts_at = inserted_frame.1.0 ∙ (deleted_frame s lo hi ts xs x request q).1.0 ∙ heap.starts_at;
    ends_at = inserted_frame.1.1 ∙ (deleted_frame s lo hi ts xs x request q).1.1 ∙ heap.ends_at;
    room = heap.room;
    bound = heap.bound;
    prologue_head = keep-Boundary heap.prologue_head (outside (lo + 4) (omega arith));
    prologue_foot = keep-Boundary heap.prologue_foot (outside (lo + 8) (omega arith));
    epilogue_head =
        keep-Boundary heap.epilogue_head
          (taken-kept last (ground (arith, in_free-bounds s.mem last last first ts heap.tiled)));
    tiled = taken-Tiled;
    free_list = inserted.0;
    listed = taken-listed;
    count =
        length-erase x xs free_block
        ∙ heap.count
        ∙ sym (
            free_count-split x request least s.mem last first ts heap.tiled
              (free_x s lo hi ts xs x request q));
  }
    where
      outside : (b : ℕ) → b < first → taken.mem b ≡ s.mem b
      outside b low = taken-kept b (ground (arith, in_free-bounds s.mem last b first ts heap.tiled))

  -- It is what `malloc` makes.
  pub take_block-taken : take_block halved x size ≡ taken
  unfolding take_block
  take_block-taken = rw (cur, smaller, next) refl
    where
      cur : get_blocksize halved.mem x ≡ request
      cur = get_blocksize_lem x (split s lo hi ts xs x request q).0 ∙ parts.0.head.size_bits

      smaller : ltb request size ≡ true
      smaller = ground arith

      front : Boundary without.mem x request 1
      front =
          keep-Boundary parts.0.head
            ((deleted s lo hi ts xs x request q).1 x (Outside-of_all xs x at_x))
        where
          at_x : (y : ℕ) → has y xs ≡ true → (x ≢ y + 4) × (x ≢ y + 8)
          at_x y j =
              apart s lo hi ts xs x request q y x (ground arith)
                (boundary-split x request least first ts (fits s lo hi ts xs x request q)).0

      next : get_nextheader without.mem x ≡ rest
      next = get_nextheader_lem parts.0.place (deleted_frame s lo hi ts xs x request q).0 front
