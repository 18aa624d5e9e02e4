-- ===== src/Alloc/Layout/Release.antt =====
-- `free` of src/mem_alloc.c on the whole heap: what its four cases share.
pub mod Alone
pub mod Next
pub mod Prev
pub mod Both
use venus_scheduler.Prelude.{
  ℕ, suc, ◌+◌, ◌-◌, ◌*◌, ◌%◌, ◌^◌, ◌<◌, ◌≤◌, ◌≡◌, ◌≢◌, refl, true, Bool, false, not, ◌&&◌, ◌||◌,
  List, [], ◌∷◌, ◌++◌, ◌==◌, arith, length, Bool-cases, inl, inr, ◌∙◌, sym, ap, Distinct, erase,
  has, has-erase-Distinct, length-erase, not-has-erase,
}
use mathlib.Core.Path.{subst}
use venus_scheduler.Alloc.Block.{Memory, Heap, get_footer, set_allocated}
use venus_scheduler.Alloc.Block.Words.{IsMemory, Boundary, set_allocated_lem}
use venus_scheduler.Alloc.Block.Bounds.{get_footer_lem}
use venus_scheduler.Alloc.FreeList.{free_list_delete, free_list_insert, merge_free_blocks}
use venus_scheduler.Alloc.FreeList.Frame.{Distinct-of_list}
use venus_scheduler.Alloc.Free.{release_alone, release_next, release_prev, release_both}
use venus_scheduler.Alloc.Malloc.Split.{IsBlock, keep-Boundary}
use venus_scheduler.Alloc.Malloc.Merge.{merge_free_blocks_lem}
use venus_scheduler.Alloc.Layout.{Tile, Tiled, starts, free_starts, boundary, free_count, IsHeap}
use venus_scheduler.Alloc.Layout.Tiles.{
  keep-IsBlock, starts-of_free, starts-bounds, free_count-bound, boundary-bounds,
}
use venus_scheduler.Alloc.Layout.Rows.{
  extent, Tiled-split_at, Tiled-append, boundary-append, free_starts-append, free_count-append,
}
use venus_scheduler.Alloc.Layout.OffList.{OffList, OffList-none, OffList-delete, OffList-Tiled}
use venus_scheduler.Alloc.Layout.Settle.{vacant, Settles, settled-IsHeap}

-- An allocated block.
abbrev pub used : ℕ → Tile
used n = record { size = n; used = true }

-- What is known of a heap with a run of blocks `ms` between `ls` and `rs`.
module _ (s : Heap) (lo hi : ℕ) (ls ms rs : List Tile) (xs : List ℕ)
    (h : IsHeap s lo hi (ls ++ (ms ++ rs)) xs) where
  abbrev spot : ℕ
  spot = extent (lo + 12) ls

  pub row_parts : Tiled s.mem (lo + 12) ls spot × Tiled s.mem spot (ms ++ rs) (hi - 4)
  row_parts = Tiled-split_at s.mem (ms ++ rs) (hi - 4) (lo + 12) ls h.tiled

  pub free_before : (y : ℕ) → free_starts y (lo + 12) ls ≡ true → y + 16 ≤ spot
  free_before y i =
      (starts-bounds s.mem spot y (lo + 12) ls row_parts.0 (starts-of_free y (lo + 12) ls i)).1

  pub free_behind : (y : ℕ) → free_starts y (extent spot ms) rs ≡ true → extent spot ms ≤ y
  free_behind y i =
      let behind = (Tiled-split_at s.mem rs (hi - 4) spot ms row_parts.1).1 in
      (starts-bounds s.mem (hi - 4) y (extent spot ms) rs behind
        (starts-of_free y (extent spot ms) rs i)).0

  pub listed_parts :
      (y : ℕ)
      → has y xs ≡ (
          free_starts y (lo + 12) ls
          || (free_starts y spot ms || free_starts y (extent spot ms) rs))
  listed_parts y =
      h.listed y
      ∙ free_starts-append y (lo + 12) ls (ms ++ rs)
      ∙ ap (λ b. free_starts y (lo + 12) ls || b) (free_starts-append y spot ms rs)

  boundary_parts :
      (b : ℕ)
      → boundary b (lo + 12) (ls ++ (ms ++ rs))
        ≡ (boundary b (lo + 12) ls || (boundary b spot ms || boundary b (extent spot ms) rs))
  boundary_parts b =
      boundary-append b (lo + 12) ls (ms ++ rs)
      ∙ ap (λ c. boundary b (lo + 12) ls || c) (boundary-append b spot ms rs)

  pub list_small : length xs < 2 ^ 32
  list_small = omega (
    arith,
    h.count,
    free_count-bound s.mem (hi - 4) (lo + 12) (ls ++ (ms ++ rs)) h.tiled,
    h.bound,
  )

  -- No boundary word of the run stands before or behind it.
  boundary_low : (b : ℕ) → b < spot → boundary b spot ms ≡ false
  boundary_low b less =
      let run = (Tiled-split_at s.mem rs (hi - 4) spot ms row_parts.1).0 in
      ground (arith, boundary-bounds s.mem (extent spot ms) b spot ms run)

  boundary_high : (b : ℕ) → extent spot ms ≤ b → boundary b spot ms ≡ false
  boundary_high b more =
      let run = (Tiled-split_at s.mem rs (hi - 4) spot ms row_parts.1).0 in
      ground (arith, boundary-bounds s.mem (extent spot ms) b spot ms run)

-- Where the run is one free block of `total` bytes.
new_listed :
    (y a total : ℕ) (ls rs : List Tile)
    → free_starts y a (ls ++ (vacant total ∷ rs))
      ≡ (free_starts y a ls || ((y == extent a ls) || free_starts y (extent a ls + total) rs))
new_listed y a total ls rs = ground (arith, free_starts-append y a ls (vacant total ∷ rs))

module _ (s : Heap) (lo hi : ℕ) (ls ms rs : List Tile) (xs : List ℕ)
    (h : IsHeap s lo hi (ls ++ (ms ++ rs)) xs) where
  -- The free blocks but those of the run.
  pub others : ℕ → Bool
  others y = free_starts y (lo + 12) ls || free_starts y (extent (extent (lo + 12) ls) ms) rs

  -- Once the blocks of the run have left the free list, and it is one free block of the memory `g`,
  -- that block can enter.
  pub Settles-of_run :
      (s1 : Heap) (xs1 : List ℕ) (g : Memory) (total : ℕ)
      → extent (extent (lo + 12) ls) ms ≡ extent (lo + 12) ls + total
      → OffList s xs s1 xs1
      → IsMemory g
      → IsBlock g (extent (lo + 12) ls) total 0
      → ((b : ℕ) → boundary b (extent (lo + 12) ls) ms ≡ false → g b ≡ s1.mem b)
      → ((y : ℕ) → has y xs1 ≡ others y)
      → length xs1 ≡ free_count ls + free_count rs
      → Settles s lo hi ls ms rs xs s1 xs1 g total
  unfolding others
  Settles-of_run s1 xs1 g total run o w block same left count = record {
    heap = h;
    run = run;
    off_list = o;
    words = w;
    block = block;
    off = λ b k. same b (ground (arith, boundary_parts s lo hi ls ms rs xs h b));
    low = λ b less. same b (boundary_low s lo hi ls ms rs xs h b less);
    high = λ b more. same b (boundary_high s lo hi ls ms rs xs h b (omega (arith, run)));
    fresh =
        let at = extent (lo + 12) ls in
        ground (
          arith,
          left at,
          run,
          block.least,
          free_before s lo hi ls ms rs xs h at,
          free_behind s lo hi ls ms rs xs h at,
        );
    listed = λ y.
        let p = extent (lo + 12) ls in
        let moved : free_starts y (extent p ms) rs ≡ free_starts y (p + total) rs =
          ap (λ z. free_starts y z rs) run in
        ground (arith, left y, moved, new_listed y (lo + 12) total ls rs);
    count = ground (arith, count, free_count-append ls (vacant total ∷ rs));
  }
