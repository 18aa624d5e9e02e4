-- ===== src/Alloc/Layout/Allocate.antt =====
-- Taking a block of the heap for a request, as `malloc` of src/mem_alloc.c does.
use venus_scheduler.Prelude.{
  ℕ, ◌+◌, ◌-◌, ◌%◌, ◌^◌, ◌<◌, ◌≤◌, ◌≡◌, ◌≢◌, true, List, ◌∷◌, ◌==◌, arith, length, Bool-cases, inl,
  inr, eq_of_==, ◌∙◌, sym, erase, has,
}
use mathlib.Core.Path.{subst}
use venus_scheduler.Alloc.Block.{Heap, get_blocksize}
use venus_scheduler.Alloc.Block.Words.{IsMemory}
use venus_scheduler.Alloc.FreeList.{free_list_delete}
use venus_scheduler.Alloc.FreeList.Ring.{IsFreeList, Outside}
use venus_scheduler.Alloc.FreeList.Delete.{free_list_delete_lem}
use venus_scheduler.Alloc.FreeList.Frame.{
  SameLinks, SameArea, keep-IsFreeList, free_list_delete_frame,
}
use venus_scheduler.Alloc.Malloc.{split_block}
use venus_scheduler.Alloc.Malloc.Split.{IsBlock, split_block_lem}
use venus_scheduler.Alloc.Layout.{
  Tile, Tiled, starts, free_starts, boundary, tile_size, split_tile, IsHeap,
}
use venus_scheduler.Alloc.Layout.Tiles.{
  starts-of_free, links-apart, free_start-IsBlock, free_count-bound,
}
use venus_scheduler.Alloc.Layout.Split.{starts-split_old, starts-split_new, boundary-split}
use venus_scheduler.Alloc.Layout.Pieces.{tile_size-blocksize, Tiled-split}

-- The free block at `x` serves the request.
pub record Serves (s : Heap) (lo hi : ℕ) (ts : List Tile) (xs : List ℕ) (x request : ℕ)
    : Type 0 where
  pub heap : IsHeap s lo hi ts xs
  pub free_block : has x xs ≡ true
  pub least : 16 ≤ request
  pub whole : request % 8 ≡ 0
  pub room : request + 16 ≤ get_blocksize s.mem x

module _ (s : Heap) (lo hi : ℕ) (ts : List Tile) (xs : List ℕ) (x request : ℕ)
    (q : Serves s lo hi ts xs x request) where
  open q use {heap, free_block, least, whole, room}

  abbrev pub first : ℕ
  first = lo + 12

  abbrev pub last : ℕ
  last = hi - 4

  abbrev pub size : ℕ
  size = get_blocksize s.mem x

  abbrev pub rest : ℕ
  rest = x + request

  abbrev pub row : List Tile
  row = split_tile x request first ts

  abbrev pub halved : Heap
  halved = record s { mem = split_block s.mem x request }

  pub free_x : free_starts x first ts ≡ true
  free_x = sym (heap.listed x) ∙ free_block

  pub free-of_listed : (y : ℕ) → has y xs ≡ true → free_starts y first ts ≡ true
  free-of_listed y j = sym (heap.listed y) ∙ j

  pub block : IsBlock s.mem x size 0
  block = free_start-IsBlock s.mem last x first ts heap.words heap.tiled free_x

  pub size_eq : tile_size x first ts ≡ size
  size_eq =
      tile_size-blocksize s.mem last x first ts heap.words heap.tiled
        (starts-of_free x first ts free_x)

  pub fits : request + 16 ≤ tile_size x first ts
  fits = omega (arith, size_eq)

  pub split :
      IsMemory halved.mem
      × IsBlock halved.mem x request 1
      × IsBlock halved.mem rest (size - request) 0
      × ((b : ℕ) → b ≢ x → b ≢ rest - 4 → b ≢ rest → b ≢ x + size - 4 → halved.mem b ≡ s.mem b)
  split = split_block_lem request heap.words block whole least room

  pub halved-Tiled : Tiled halved.mem first row last
  halved-Tiled = Tiled-split s.mem halved.mem last x request least first ts heap.tiled fits (
      subst
        (λ n.
          IsBlock halved.mem x request 1
          × IsBlock halved.mem rest (n - request) 0
          × ((b : ℕ) → b ≢ x → b ≢ rest - 4 → b ≢ rest → b ≢ x + n - 4 → halved.mem b ≡ s.mem b))
        (sym size_eq) (split.1, split.2, split.3))

  starts-of_listed : (y : ℕ) → has y (rest ∷ xs) ≡ true → starts y first row ≡ true
  starts-of_listed y j = elim (Bool-cases (y == rest)) [
    | inl e ↦
        subst (λ z. starts z first row ≡ true) (sym (eq_of_== y rest e))
          (starts-split_new x request least first ts fits)
    | inr ne ↦
        starts-split_old x request least y first ts fits
          (starts-of_free y first ts (free-of_listed y (ground arith)))
  ]

  pub apart :
      (y b : ℕ) → has y (rest ∷ xs) ≡ true → boundary b first row ≡ true → (b ≢ y + 4) × (b ≢ y + 8)
  apart y b j k = links-apart halved.mem last y b first row halved-Tiled (starts-of_listed y j) k

  halved_links : SameLinks s.mem halved.mem xs
  halved_links y j =
      let (b1, b2, b3, b4) = boundary-split x request least first ts fits in
      let k : has y (rest ∷ xs) ≡ true = ground arith in
      let a1 = apart y x k b1 in
      let a2 = apart y (rest - 4) k b2 in
      let a3 = apart y rest k b3 in
      let a4 = apart y (x + tile_size x first ts - 4) k b4 in
      (
        split.3 (y + 4) (omega arith) (omega arith) (omega arith) (omega (arith, size_eq)),
        split.3 (y + 8) (omega arith) (omega arith) (omega arith) (omega (arith, size_eq)),
      )

  halved-IsFreeList : IsFreeList halved xs
  halved-IsFreeList = keep-IsFreeList s halved.mem xs heap.free_list halved_links

  pub few : length xs + 1 < 2 ^ 32
  few = omega (arith, heap.count, free_count-bound s.mem last first ts heap.tiled, heap.bound)

  abbrev pub without : Heap
  without = free_list_delete halved x

  pub deleted :
      IsFreeList without (erase x xs) × ((b : ℕ) → Outside xs b → without.mem b ≡ halved.mem b)
  deleted = free_list_delete_lem halved xs x halved-IsFreeList free_block (omega (arith, few))

  pub deleted_frame : IsMemory without.mem × SameArea halved without
  deleted_frame = free_list_delete_frame halved x split.0
