-- ===== src/Alloc/Malloc/Merge.antt =====
-- `merge_free_blocks` of src/mem_free.c: merging two neighbours, on their boundary words.
use venus_scheduler.Prelude.{ℕ, ◌+◌, ◌-◌, ◌%◌, ◌^◌, ◌<◌, ◌≡◌, ◌≢◌, refl, arith, ◌∙◌}
use mathlib.Core.Path.{subst}
use venus_scheduler.Alloc.Block.{
  Memory, add32, get_blocksize, set_blocksize, set_allocated, get_footer,
}
use venus_scheduler.Alloc.Block.Words.{
  IsMemory, Boundary, get_blocksize_lem, set_blocksize_lem, set_allocated_lem,
}
use venus_scheduler.Alloc.Block.Bounds.{IsHeader, get_footer_lem}
use venus_scheduler.Alloc.FreeList.{merge_free_blocks}
use venus_scheduler.Alloc.Malloc.Split.{IsBlock, Wrote, keep-Boundary}

-- `set_blocksize` and then `set_allocated` to free, as in `merge_free_blocks`.
abbrev free_boundary : Memory → ℕ → ℕ → Memory
free_boundary m addr size = set_allocated (set_blocksize m addr size) addr 0

free_boundary_lem :
    {m : Memory} (w : IsMemory m) (addr size : ℕ)
    → size % 8 ≡ 0
    → size < 2 ^ 32
    → Wrote m (free_boundary m addr size) addr size 0
free_boundary_lem {m} w addr size hs lt =
    let (b1, w1, s1) = set_blocksize_lem w addr size hs lt refl in
    let (b2, w2, s2) = set_allocated_lem w1 addr 0 (omega arith) b1.size_bits in
    record { words = w2; now = b2; same = λ b ne. s2 b ne ∙ s1 b ne }

-- The memories between the writes of `merge_free_blocks`, with the addresses worked out.
module _ (m : Memory) (low size1 size2 : ℕ) where
  abbrev merged1 : Memory
  merged1 = free_boundary m low (size1 + size2)

  abbrev merged2 : Memory
  merged2 = free_boundary merged1 (low + size1 + size2 - 4) (size1 + size2)

module _ {m : Memory} {low size1 flag1 size2 flag2 : ℕ} (w : IsMemory m)
    (b1 : IsBlock m low size1 flag1) (b2 : IsBlock m (low + size1) size2 flag2) where
  place : IsHeader low (size1 + size2)
  place = let p1 = b1.place in let p2 = b2.place in omega arith

  wrote1 : Wrote m (merged1 m low size1 size2) low (size1 + size2) 0
  wrote1 =
      free_boundary_lem w low (size1 + size2) (omega (arith, b1.place, b2.place))
        (omega (arith, place))

  wrote2 :
      Wrote
        (merged1 m low size1 size2)
        (merged2 m low size1 size2)
        (low + size1 + size2 - 4)
        (size1 + size2)
        0
  wrote2 =
      free_boundary_lem wrote1.words (low + size1 + size2 - 4) (size1 + size2)
        (omega (arith, b1.place, b2.place)) (omega (arith, place))

  merge-eq : merge_free_blocks m low (low + size1) ≡ merged2 m low size1 size2
  unfolding merge_free_blocks
  merge-eq = rw (size1_eq, size2_eq, sum_eq, high_footer)
    where
      size1_eq : get_blocksize m low ≡ size1
      size1_eq = get_blocksize_lem low w ∙ b1.head.size_bits

      size2_eq : get_blocksize m (low + size1) ≡ size2
      size2_eq = get_blocksize_lem (low + size1) w ∙ b2.head.size_bits

      sum_eq : add32 size1 size2 ≡ size1 + size2
      sum_eq = omega (arith, place)

      high_footer : get_footer (merged1 m low size1 size2) (low + size1) ≡ low + size1 + size2 - 4
      high_footer =
          get_footer_lem b2.place wrote1.words
            (keep-Boundary b2.head (wrote1.same (low + size1) (omega (arith, b1.least))))
            (omega (arith, b2.least))

  merged-IsBlock : IsBlock (merged2 m low size1 size2) low (size1 + size2) 0
  merged-IsBlock = record {
    place = place;
    least = omega (arith, b1.least);
    head = keep-Boundary wrote1.now (wrote2.same low (omega (arith, b1.least)));
    foot =
        subst (λ a. Boundary (merged2 m low size1 size2) a (size1 + size2) 0) same_end wrote2.now;
  }
    where
      same_end : low + size1 + size2 - 4 ≡ low + (size1 + size2) - 4
      same_end = omega arith

  -- Two neighbours become one free block of both sizes; no word changes but the header of the low
  -- block and the footer of the high one.
  pub merge_free_blocks_lem :
      let g = merge_free_blocks m low (low + size1) in
      IsMemory g
      × IsBlock g low (size1 + size2) 0
      × ((b : ℕ) → b ≢ low → b ≢ low + size1 + size2 - 4 → g b ≡ m b)
  merge_free_blocks_lem =
      rw merge-eq (wrote2.words, merged-IsBlock, λ b p q. wrote2.same b q ∙ wrote1.same b p)
