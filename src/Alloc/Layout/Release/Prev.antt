-- ===== src/Alloc/Layout/Release/Prev.antt =====
-- Case 3 of `free` in src/mem_alloc.c: the block before is free.
use venus_scheduler.Prelude.{
  ℕ, ◌+◌, ◌-◌, ◌≡◌, ◌≢◌, true, List, [], ◌∷◌, ◌++◌, arith, erase, has, has-erase-Distinct,
  length-erase,
}
use venus_scheduler.Alloc.Block.{Memory, Heap}
use venus_scheduler.Alloc.Block.Words.{IsMemory}
use venus_scheduler.Alloc.FreeList.{free_list_delete, merge_free_blocks}
use venus_scheduler.Alloc.FreeList.Frame.{Distinct-of_list}
use venus_scheduler.Alloc.Free.{release_prev}
use venus_scheduler.Alloc.Malloc.Split.{IsBlock}
use venus_scheduler.Alloc.Malloc.Merge.{merge_free_blocks_lem}
use venus_scheduler.Alloc.Layout.{Tile, Tiled, IsHeap}
use venus_scheduler.Alloc.Layout.Rows.{extent, Tiled-split_at, free_count-append}
use venus_scheduler.Alloc.Layout.OffList.{OffList, OffList-none, OffList-delete, OffList-Tiled}
use venus_scheduler.Alloc.Layout.Settle.{vacant, Settles, settled-IsHeap}
use venus_scheduler.Alloc.Layout.Release.{
  used, free_before, free_behind, listed_parts, list_small, others, Settles-of_run,
}

module _ (s : Heap) (lo hi n k : ℕ) (ls rs : List Tile) (xs : List ℕ)
    (h : IsHeap s lo hi (ls ++ (vacant k ∷ used n ∷ rs)) xs) where
  abbrev at : ℕ
  at = extent (lo + 12) ls

  abbrev row : List Tile
  row = ls ++ (vacant k ∷ used n ∷ rs)

  abbrev run : List Tile
  run = vacant k ∷ used n ∷ []

  abbrev req : ℕ
  req = at + k

  abbrev without : Heap
  without = free_list_delete s at

  abbrev left : List ℕ
  left = erase at xs

  prev_listed : has at xs ≡ true
  prev_listed = ground (arith, listed_parts s lo hi ls run rs xs h at)

  off : OffList s xs without left
  off =
      OffList-delete s xs s xs at (OffList-none s lo hi row xs h) prev_listed
        (list_small s lo hi ls run rs xs h)

  tiled : Tiled without.mem (lo + 12) row (hi - 4)
  tiled = OffList-Tiled s lo hi row xs without left h off

  parts : Tiled without.mem at (vacant k ∷ used n ∷ rs) (hi - 4)
  parts = (Tiled-split_at without.mem (vacant k ∷ used n ∷ rs) (hi - 4) (lo + 12) ls tiled).1

  abbrev merged : Memory
  merged = merge_free_blocks without.mem at req

  merges :
      IsMemory merged
      × IsBlock merged at (k + n) 0
      × ((b : ℕ) → b ≢ at → b ≢ at + k + n - 4 → merged b ≡ without.mem b)
  merges = merge_free_blocks_lem off.words parts.0 parts.1.0

  prev-Settles : Settles s lo hi ls run rs xs without left merged (k + n)
  unfolding others
  prev-Settles =
      Settles-of_run s lo hi ls run rs xs h without left merged (k + n) (omega arith) off merges.0
        merges.1 (λ b j. merges.2 b (ground arith) (ground arith))
        (λ y. ground (
          arith,
          listed_parts s lo hi ls run rs xs h y,
          has-erase-Distinct at y xs (Distinct-of_list s xs h.free_list),
          free_before s lo hi ls run rs xs h y,
          free_behind s lo hi ls run rs xs h y,
          parts.0.least,
          parts.1.0.least,
        ))
        (ground (
          arith,
          length-erase at xs prev_listed,
          h.count,
          free_count-append ls (vacant k ∷ used n ∷ rs),
        ))

  -- Case 3: the block joins the one before.
  pub release_prev-IsHeap :
      IsHeap (release_prev s req at) lo hi (ls ++ (vacant (k + n) ∷ rs)) (at ∷ left)
  unfolding release_prev
  release_prev-IsHeap = settled-IsHeap s lo hi ls run rs xs without left merged (k + n) prev-Settles
