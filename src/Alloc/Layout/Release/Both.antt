-- ===== src/Alloc/Layout/Release/Both.antt =====
-- Case 4 of `free` in src/mem_alloc.c: both neighbours are free.
use venus_scheduler.Prelude.{
  ℕ, ◌+◌, ◌-◌, ◌≡◌, ◌≢◌, refl, true, some, leb, List, [], ◌∷◌, ◌++◌, arith, ◌∙◌, Distinct,
  Distinct-erase, erase, has, has-erase-Distinct, length-erase,
}
use mathlib.Core.Path.{subst}
use venus_scheduler.Alloc.Block.{Memory, Heap}
use venus_scheduler.Alloc.Block.Words.{IsMemory}
use venus_scheduler.Alloc.FreeList.{free_list_delete, merge_free_blocks}
use venus_scheduler.Alloc.FreeList.Frame.{Distinct-of_list}
use venus_scheduler.Alloc.Free.{release_both}
use venus_scheduler.Alloc.Malloc.Split.{IsBlock}
use venus_scheduler.Alloc.Malloc.Merge.{merge_free_blocks_lem}
use venus_scheduler.Alloc.Layout.{Tile, Tiled, IsHeap}
use venus_scheduler.Alloc.Layout.Tiles.{keep-IsBlock}
use venus_scheduler.Alloc.Layout.Rows.{extent, Tiled-split_at, free_count-append}
use venus_scheduler.Alloc.Layout.OffList.{OffList, OffList-none, OffList-delete, OffList-Tiled}
use venus_scheduler.Alloc.Layout.Settle.{vacant, settled, Settles, settled-IsHeap}
use venus_scheduler.Alloc.Layout.Release.{
  used, row_parts, free_before, free_behind, listed_parts, list_small, others, Settles-of_run,
}

module _ (s : Heap) (lo hi j n k : ℕ) (ls rs : List Tile) (xs : List ℕ)
    (h : IsHeap s lo hi (ls ++ (vacant j ∷ used n ∷ vacant k ∷ rs)) xs) where
  abbrev at : ℕ
  at = extent (lo + 12) ls

  abbrev row : List Tile
  row = ls ++ (vacant j ∷ used n ∷ vacant k ∷ rs)

  abbrev run : List Tile
  run = vacant j ∷ used n ∷ vacant k ∷ []

  abbrev req : ℕ
  req = at + j

  abbrev next : ℕ
  next = at + (j + n)

  abbrev without : Heap
  without = free_list_delete (free_list_delete s next) at

  abbrev left : List ℕ
  left = erase at (erase next xs)

  same_next : at + j + n ≡ next
  same_next = omega arith

  least : IsBlock s.mem at j 0
  least = (row_parts s lo hi ls run rs xs h).1.0

  at_listed : has at xs ≡ true
  at_listed = ground (arith, listed_parts s lo hi ls run rs xs h at)

  next_listed : has next xs ≡ true
  next_listed = ground (arith, listed_parts s lo hi ls run rs xs h next)

  distinct : Distinct xs
  distinct = Distinct-of_list s xs h.free_list

  at_left : has at (erase next xs) ≡ true
  at_left = ground (arith, has-erase-Distinct next at xs distinct, at_listed, least.least)

  off : OffList s xs without left
  off =
      OffList-delete s xs (free_list_delete s next) (erase next xs) at
        (OffList-delete s xs s xs next (OffList-none s lo hi row xs h) next_listed
          (list_small s lo hi ls run rs xs h))
        at_left (omega (arith, length-erase next xs next_listed, list_small s lo hi ls run rs xs h))

  tiled : Tiled without.mem (lo + 12) row (hi - 4)
  tiled = OffList-Tiled s lo hi row xs without left h off

  parts : Tiled without.mem at (vacant j ∷ used n ∷ vacant k ∷ rs) (hi - 4)
  parts =
      (Tiled-split_at without.mem (vacant j ∷ used n ∷ vacant k ∷ rs) (hi - 4) (lo + 12) ls tiled).1

  abbrev merged1 : Memory
  merged1 = merge_free_blocks without.mem at req

  abbrev merged : Memory
  merged = merge_free_blocks merged1 at next

  merges1 :
      IsMemory merged1
      × IsBlock merged1 at (j + n) 0
      × ((b : ℕ) → b ≢ at → b ≢ at + j + n - 4 → merged1 b ≡ without.mem b)
  merges1 = merge_free_blocks_lem off.words parts.0 parts.1.0

  next_block : IsBlock merged1 next k 0
  next_block =
      let there = parts.1.1.0 in
      let moved : IsBlock without.mem next k 0 =
        subst (λ z. IsBlock without.mem z k 0) same_next there in
      keep-IsBlock moved
        (merges1.2 next (omega (arith, parts.0.least)) (omega (arith, parts.0.least)))
        (merges1.2 (next + k - 4) (omega (arith, moved.least)) (omega (arith, moved.least)))

  merges :
      IsMemory merged
      × IsBlock merged at (j + n + k) 0
      × ((b : ℕ) → b ≢ at → b ≢ at + (j + n) + k - 4 → merged b ≡ merged1 b)
  merges = merge_free_blocks_lem merges1.0 merges1.1 next_block

  both-Settles : Settles s lo hi ls run rs xs without left merged (j + n + k)
  unfolding others
  both-Settles =
      Settles-of_run s lo hi ls run rs xs h without left merged (j + n + k) (omega arith) off
        merges.0 merges.1
        (λ b i.
          merges.2 b (ground arith) (ground arith) ∙ merges1.2 b (ground arith) (ground arith))
        (λ y. ground (
          arith,
          listed_parts s lo hi ls run rs xs h y,
          has-erase-Distinct next y xs distinct,
          has-erase-Distinct at y (erase next xs) (Distinct-erase next xs distinct),
          free_before s lo hi ls run rs xs h y,
          free_behind s lo hi ls run rs xs h y,
          least.least,
          parts.1.0.least,
          next_block.least,
        ))
        (ground (
          arith,
          length-erase next xs next_listed,
          length-erase at (erase next xs) at_left,
          h.count,
          free_count-append ls (vacant j ∷ used n ∷ vacant k ∷ rs),
        ))

  -- Case 4: the block joins both, and the assertion on the counter holds.
  pub release_both-IsHeap :
      (s' : Heap) × (release_both s req next at ≡ some s')
      × IsHeap s' lo hi (ls ++ (vacant (j + n + k) ∷ rs)) (at ∷ left)
  unfolding release_both
  release_both-IsHeap =
      let whole =
        settled-IsHeap s lo hi ls run rs xs without left merged (j + n + k) both-Settles in
      let counted = whole.free_list.1 in
      let enough : leb 1
            (settled s lo hi ls run rs xs without left merged (j + n + k)
              both-Settles).free_list_counter
          ≡ true =
        ground (arith, counted) in
      (
        settled s lo hi ls run rs xs without left merged (j + n + k) both-Settles,
        rw enough refl,
        whole,
      )
