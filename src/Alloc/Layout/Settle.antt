-- ===== src/Alloc/Layout/Settle.antt =====
-- A run of blocks of the heap becomes one free block, which enters the free list: the last step of
-- `free` in src/mem_alloc.c.
use venus_scheduler.Prelude.{
  ℕ, suc, ◌+◌, ◌-◌, ◌^◌, ◌<◌, ◌≤◌, ◌≡◌, refl, true, false, List, ◌∷◌, ◌++◌, arith, length,
  Bool-cases, inl, inr, ◌∙◌, sym, has,
}
use mathlib.Core.Path.{subst}
use venus_scheduler.Alloc.Block.{Memory, Heap}
use venus_scheduler.Alloc.Block.Words.{IsMemory}
use venus_scheduler.Alloc.FreeList.{free_list_insert}
use venus_scheduler.Alloc.FreeList.Chain.{IsNode}
use venus_scheduler.Alloc.FreeList.Ring.{IsFreeList, Outside, free_list_insert_lem}
use venus_scheduler.Alloc.FreeList.Frame.{
  SameArea, keep-IsFreeList, Outside-of_all, free_list_insert_frame, head-bound,
}
use venus_scheduler.Alloc.Malloc.Split.{IsBlock, keep-Boundary}
use venus_scheduler.Alloc.Layout.{Tile, Tiled, starts, free_starts, boundary, free_count, IsHeap}
use venus_scheduler.Alloc.Layout.Tiles.{
  starts-of_free, starts-bounds, boundary-bounds, links-apart, keep-Tiled, free_count-bound,
  Tiled-le,
}
use venus_scheduler.Alloc.Layout.OffList.{OffList, OffList-boundary}
use venus_scheduler.Alloc.Layout.Rows.{extent, Tiled-split_at, Tiled-append, boundary-append}

-- A free block.
abbrev pub vacant : ℕ → Tile
vacant n = record { size = n; used = false }

-- The heap on the way: some blocks have left the free list, and the run `ms` between `ls` and `rs`
-- is one free block of `total` bytes in the memory `g`.
pub record Settles (s : Heap) (lo hi : ℕ) (ls ms rs : List Tile) (xs : List ℕ) (s1 : Heap)
    (xs1 : List ℕ) (g : Memory) (total : ℕ) : Type 0 where
  pub heap : IsHeap s lo hi (ls ++ (ms ++ rs)) xs
  pub run : extent (extent (lo + 12) ls) ms ≡ extent (lo + 12) ls + total
  pub off_list : OffList s xs s1 xs1
  pub words : IsMemory g
  pub block : IsBlock g (extent (lo + 12) ls) total 0
  pub off : (b : ℕ) → boundary b (lo + 12) (ls ++ (ms ++ rs)) ≡ false → g b ≡ s1.mem b
  pub low : (b : ℕ) → b < extent (lo + 12) ls → g b ≡ s1.mem b
  pub high : (b : ℕ) → extent (lo + 12) ls + total ≤ b → g b ≡ s1.mem b
  pub fresh : has (extent (lo + 12) ls) xs1 ≡ false
  pub listed :
      (y : ℕ)
      → has y (extent (lo + 12) ls ∷ xs1) ≡ free_starts y (lo + 12) (ls ++ (vacant total ∷ rs))
  pub count : suc (length xs1) ≡ free_count (ls ++ (vacant total ∷ rs))

module _ (s : Heap) (lo hi : ℕ) (ls ms rs : List Tile) (xs : List ℕ) (s1 : Heap) (xs1 : List ℕ)
    (g : Memory) (total : ℕ) (q : Settles s lo hi ls ms rs xs s1 xs1 g total) where
  open q use {heap, run, off_list, words, block, off, low, high, fresh, listed, count}
  open off_list use {free_list, area, kept, sub}

  abbrev first : ℕ
  first = lo + 12

  abbrev last : ℕ
  last = hi - 4

  abbrev p : ℕ
  p = extent first ls

  abbrev old : List Tile
  old = ls ++ (ms ++ rs)

  abbrev new : List Tile
  new = ls ++ (vacant total ∷ rs)

  start-of_listed : (y : ℕ) → has y xs ≡ true → starts y first old ≡ true
  start-of_listed y j = starts-of_free y first old (sym (heap.listed y) ∙ j)

  kept_boundary : (b : ℕ) → boundary b first old ≡ true → s1.mem b ≡ s.mem b
  kept_boundary b k = OffList-boundary s lo hi old xs s1 xs1 heap off_list b k

  kept_low : (b : ℕ) → b < first → s1.mem b ≡ s.mem b
  kept_low b less = kept b (
      Outside-of_all xs b (λ y j.
        let r = starts-bounds s.mem last y first old heap.tiled (start-of_listed y j) in
        (omega arith, omega arith)))

  kept_high : (b : ℕ) → last ≤ b → s1.mem b ≡ s.mem b
  kept_high b more = kept b (
      Outside-of_all xs b (λ y j.
        let r = starts-bounds s.mem last y first old heap.tiled (start-of_listed y j) in
        (omega arith, omega arith)))

  linked : IsFreeList (record s1 { mem = g }) xs1
  linked =
      keep-IsFreeList s1 g xs1 free_list (λ y j. (off (y + 4) (four y j), off (y + 8) (eight y j)))
    where
      four : (y : ℕ) → has y xs1 ≡ true → boundary (y + 4) first old ≡ false
      four y j = elim (Bool-cases (boundary (y + 4) first old)) [
        | inl k ↦ absurd (
            (links-apart s.mem last y (y + 4) first old heap.tiled (start-of_listed y (sub y j))
                k).0
              refl)
        | inr k ↦ k
      ]

      eight : (y : ℕ) → has y xs1 ≡ true → boundary (y + 8) first old ≡ false
      eight y j = elim (Bool-cases (boundary (y + 8) first old)) [
        | inl k ↦ absurd (
            (links-apart s.mem last y (y + 8) first old heap.tiled (start-of_listed y (sub y j))
                k).1
              refl)
        | inr k ↦ k
      ]

  before : Tiled s.mem first ls p × Tiled s.mem p (ms ++ rs) last
  before = Tiled-split_at s.mem (ms ++ rs) last first ls heap.tiled

  behind : Tiled s.mem (p + total) rs last
  behind = subst (λ z. Tiled s.mem z rs last) run (Tiled-split_at s.mem rs last p ms before.1).1

  settled-Tiled : Tiled g first new last
  settled-Tiled =
      Tiled-append g (vacant total ∷ rs) last first ls
        (keep-Tiled s.mem g p first ls before.0 (λ b k.
          let r = boundary-bounds s.mem p b first ls before.0 k in
          low b r.1 ∙ kept_boundary b (ground (arith, boundary-append b first ls (ms ++ rs)))))
        (
          block,
          keep-Tiled s.mem g last (p + total) rs behind (λ b k.
              let r = boundary-bounds s.mem last b (p + total) rs behind k in
              high b r.0
              ∙ kept_boundary b
                  (ground (arith, boundary-append b first ls (ms ++ rs), in_rest b k))),
        )
    where
      in_rest : (b : ℕ) → boundary b (p + total) rs ≡ true → boundary b p (ms ++ rs) ≡ true
      in_rest b k =
          let at : boundary b (extent p ms) rs ≡ true =
            subst (λ z. boundary b z rs ≡ true) (sym run) k in
          ground (arith, boundary-append b p ms rs)

  abbrev pub settled : Heap
  settled = free_list_insert (record s1 { mem = g }) p

  p-IsNode : IsNode p
  p-IsNode = let place = block.place in omega (arith, block.least)

  few : length xs1 + 1 < 2 ^ 32
  few = omega (arith, count, free_count-bound g last first new settled-Tiled, heap.bound)

  inserted : IsFreeList settled (p ∷ xs1) × ((b : ℕ) → Outside (p ∷ xs1) b → settled.mem b ≡ g b)
  inserted = free_list_insert_lem (record s1 { mem = g }) xs1 p linked p-IsNode fresh few

  inserted_frame : IsMemory settled.mem × SameArea s1 settled
  inserted_frame =
      free_list_insert_frame (record s1 { mem = g }) p words (head-bound s1 xs1 free_list)
        (omega (arith, p-IsNode))

  start-of_new : (y : ℕ) → has y (p ∷ xs1) ≡ true → starts y first new ≡ true
  start-of_new y j = starts-of_free y first new (sym (listed y) ∙ j)

  kept_new : (b : ℕ) → boundary b first new ≡ true → settled.mem b ≡ g b
  kept_new b k = inserted.1 b (
      Outside-of_all (p ∷ xs1) b
        (λ y j. links-apart g last y b first new settled-Tiled (start-of_new y j) k))

  settled_low : (b : ℕ) → b < first → settled.mem b ≡ s.mem b
  settled_low b less =
      inserted.1 b (
        Outside-of_all (p ∷ xs1) b (λ y j.
          let r = starts-bounds g last y first new settled-Tiled (start-of_new y j) in
          (omega arith, omega arith)))
      ∙ low b (omega (arith, Tiled-le s.mem p first ls before.0))
      ∙ kept_low b less

  settled_high : (b : ℕ) → last ≤ b → settled.mem b ≡ s.mem b
  settled_high b more =
      inserted.1 b (
        Outside-of_all (p ∷ xs1) b (λ y j.
          let r = starts-bounds g last y first new settled-Tiled (start-of_new y j) in
          (omega arith, omega arith)))
      ∙ high b (omega (arith, Tiled-le s.mem last (p + total) rs behind))
      ∙ kept_high b more

  pub settled-IsHeap : IsHeap settled lo hi new (p ∷ xs1)
  settled-IsHeap = record {
    words = inserted_frame.0;
    starts_at = inserted_frame.1.0 ∙ area.0 ∙ heap.starts_at;
    ends_at = inserted_frame.1.1 ∙ area.1 ∙ heap.ends_at;
    room = heap.room;
    bound = heap.bound;
    prologue_head = keep-Boundary heap.prologue_head (settled_low (lo + 4) (omega arith));
    prologue_foot = keep-Boundary heap.prologue_foot (settled_low (lo + 8) (omega arith));
    epilogue_head = keep-Boundary heap.epilogue_head (settled_high last (omega arith));
    tiled = keep-Tiled g settled.mem last first new settled-Tiled kept_new;
    free_list = inserted.0;
    listed = listed;
    count = count;
  }
