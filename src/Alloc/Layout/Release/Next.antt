-- ===== src/Alloc/Layout/Release/Next.antt =====
-- Case 2 of `free` in src/mem_alloc.c: the block behind is free.
use venus_scheduler.Prelude.{
  ℕ, ◌+◌, ◌-◌, ◌≡◌, ◌≢◌, true, List, [], ◌∷◌, ◌++◌, arith, erase, has, has-erase-Distinct,
  length-erase,
}
use venus_scheduler.Alloc.Block.{Memory, Heap}
use venus_scheduler.Alloc.Block.Words.{IsMemory}
use venus_scheduler.Alloc.FreeList.{free_list_delete, merge_free_blocks}
use venus_scheduler.Alloc.FreeList.Frame.{Distinct-of_list}
use venus_scheduler.Alloc.Free.{release_next}
use venus_scheduler.Alloc.Malloc.Split.{IsBlock}
use venus_scheduler.Alloc.Malloc.Merge.{merge_free_blocks_lem}
use venus_scheduler.Alloc.Layout.{Tile, Tiled, IsHeap}
use venus_scheduler.Alloc.Layout.Rows.{extent, Tiled-split_at, free_count-append}
use venus_scheduler.Alloc.Layout.OffList.{OffList, OffList-none, OffList-delete, OffList-Tiled}
use venus_scheduler.Alloc.Layout.Settle.{vacant, Settles, settled-IsHeap}
use venus_scheduler.Alloc.Layout.Release.{
  used, free_before, free_behind, listed_parts, list_small, others, Settles-of_run,
}

module _ (s : Heap) (lo hi n k : ℕ) (ls rs : List Tile) (xs : List ℕ)
    (h : IsHeap s lo hi (ls ++ (used n ∷ vacant k ∷ rs)) xs) where
  abbrev at : ℕ
  at = extent (lo + 12) ls

  abbrev row : List Tile
  row = ls ++ (used n ∷ vacant k ∷ rs)

  abbrev run : List Tile
  run = used n ∷ vacant k ∷ []

  abbrev next : ℕ
  next = at + n

  abbrev without : Heap
  without = free_list_delete s next

  abbrev left : List ℕ
  left = erase next xs

  next_listed : has next xs ≡ true
  next_listed = ground (arith, listed_parts s lo hi ls run rs xs h next)

  off : OffList s xs without left
  off =
      OffList-delete s xs s xs next (OffList-none s lo hi row xs h) next_listed
        (list_small s lo hi ls run rs xs h)

  tiled : Tiled without.mem (lo + 12) row (hi - 4)
  tiled = OffList-Tiled s lo hi row xs without left h off

  parts : Tiled without.mem at (used n ∷ vacant k ∷ rs) (hi - 4)
  parts = (Tiled-split_at without.mem (used n ∷ vacant k ∷ rs) (hi - 4) (lo + 12) ls tiled).1

  abbrev merged : Memory
  merged = merge_free_blocks without.mem at next

  merges :
      IsMemory merged
      × IsBlock merged at (n + k) 0
      × ((b : ℕ) → b ≢ at → b ≢ at + n + k - 4 → merged b ≡ without.mem b)
  merges = merge_free_blocks_lem off.words parts.0 parts.1.0

  next-Settles : Settles s lo hi ls run rs xs without left merged (n + k)
  unfolding others
  next-Settles =
      Settles-of_run s lo hi ls run rs xs h without left merged (n + k) (omega arith) off merges.0
        merges.1 (λ b j. merges.2 b (ground arith) (ground arith))
        (λ y. ground (
          arith,
          listed_parts s lo hi ls run rs xs h y,
          has-erase-Distinct next y xs (Distinct-of_list s xs h.free_list),
          free_before s lo hi ls run rs xs h y,
          free_behind s lo hi ls run rs xs h y,
          parts.0.least,
          parts.1.0.least,
        ))
        (ground (
          arith,
          length-erase next xs next_listed,
          h.count,
          free_count-append ls (used n ∷ vacant k ∷ rs),
        ))

  -- Case 2: the block behind joins.
  pub release_next-IsHeap :
      IsHeap (release_next s at next) lo hi (ls ++ (vacant (n + k) ∷ rs)) (at ∷ left)
  unfolding release_next
  release_next-IsHeap = settled-IsHeap s lo hi ls run rs xs without left merged (n + k) next-Settles
