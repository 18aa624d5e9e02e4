-- ===== src/Alloc/Layout/Dispatch.antt =====
-- Which case of `free` in src/mem_alloc.c a block of the heap meets.
use venus_scheduler.Prelude.{
  ℕ, ◌+◌, ◌-◌, ◌≤◌, ◌≡◌, refl, true, false, ◌&&◌, List, [], ◌∷◌, ◌++◌, ◌==◌, leb, arith,
  if◌then◌else◌, none, some, ◌∙◌, ap,
}
use venus_scheduler.Alloc.Block.{
  Heap, get_header, get_nextheader, get_prevheader, get_allocated, get_blocksize,
}
use venus_scheduler.Alloc.Block.Words.{Boundary, get_allocated_lem, get_blocksize_lem}
use venus_scheduler.Alloc.Block.Bounds.{header_and_payload, get_nextheader_lem, get_prevheader_lem}
use venus_scheduler.Alloc.Free.{free, release_alone, release_next, release_prev, release_both}
use venus_scheduler.Alloc.Layout.{Tile, Tiled, flag_of, IsHeap}
use venus_scheduler.Alloc.Layout.Rows.{extent, Tiled-split_at}
use venus_scheduler.Alloc.Layout.Settle.{vacant}
use venus_scheduler.Alloc.Layout.Release.{used}

-- The blocks `ls`, the nearest first, before `rs`.
abbrev pub onto : List Tile → List Tile → List Tile
onto [] rs = rs
onto (l ∷ ls) rs = onto ls (l ∷ rs)

pub onto-append : (ls ms rs : List Tile) → onto ls (ms ++ rs) ≡ onto ls ms ++ rs
onto-append [] ms rs = refl
onto-append (l ∷ ls) ms rs = onto-append ls (l ∷ ms) rs

pub extent-append : (a : ℕ) (ls rs : List Tile) → extent a (ls ++ rs) ≡ extent (extent a ls) rs
extent-append a [] rs = refl
extent-append a (t ∷ ts) rs = extent-append (a + t.size) ts rs

-- Where the block behind `ls` starts.
abbrev pub place_of : ℕ → List Tile → ℕ
place_of lo ls = extent (lo + 12) (onto ls [])

pub place-next :
    (lo : ℕ) (l : Tile) (ls : List Tile) → place_of lo (l ∷ ls) ≡ place_of lo ls + l.size
place-next lo l ls =
    ap (extent (lo + 12)) (onto-append ls [] (l ∷ []))
    ∙ extent-append (lo + 12) (onto ls []) (l ∷ [])

-- A free block of `n` bytes before `rs`, merged with the one behind it if that is free.
abbrev pub joined : ℕ → List Tile → List Tile
joined n [] = vacant n ∷ []
joined n (t ∷ ts) = if t.used then vacant n ∷ t ∷ ts else vacant (n + t.size) ∷ ts

-- The row after the block of `n` bytes between `ls` and `rs` is freed.
abbrev pub released : List Tile → ℕ → List Tile → List Tile
released [] n rs = joined n rs
released (l ∷ ls) n rs =
    if l.used then onto (l ∷ ls) (joined n rs) else onto ls (joined (l.size + n) rs)

free_eq :
    (s : Heap) (x next prev next_flag prev_flag : ℕ)
    → get_header (x + 4) ≡ x
    → get_nextheader s.mem x ≡ next
    → get_prevheader s.mem x ≡ prev
    → get_allocated s.mem next ≡ next_flag
    → get_allocated s.mem prev ≡ prev_flag
    → get_allocated s.mem x ≡ 1
    → leb 16 (get_blocksize s.mem x) ≡ true
    → free (x + 4) s ≡ (
        if (next_flag == 1) && (prev_flag == 1)
        then some (release_alone s x)
        else if (next_flag == 0) && (prev_flag == 1)
        then some (release_next s x next)
        else if (next_flag == 1) && (prev_flag == 0)
        then some (release_prev s x prev)
        else if (next_flag == 0) && (prev_flag == 0)
        then release_both s x next prev
        else none)
unfolding free
free_eq s x next prev next_flag prev_flag eh en ep enf epf ef eb =
    let pos : (x + 4 == 0) ≡ false = ground arith in rw (pos, eh, en, ep, enf, epf, ef, eb) refl

-- The flag of the block behind, or of the epilogue.
abbrev pub next_flag : List Tile → ℕ
next_flag [] = 1
next_flag (t ∷ ts) = flag_of t.used

module _ (s : Heap) (lo hi n : ℕ) (ls rs : List Tile) (xs : List ℕ)
    (h : IsHeap s lo hi (ls ++ (used n ∷ rs)) xs) where
  abbrev x : ℕ
  x = extent (lo + 12) ls

  here : Tiled s.mem x (used n ∷ rs) (hi - 4)
  here = (Tiled-split_at s.mem (used n ∷ rs) (hi - 4) (lo + 12) ls h.tiled).1

  next_lem :
      (rs : List Tile)
      → Tiled s.mem (x + n) rs (hi - 4)
      → get_allocated s.mem (x + n) ≡ next_flag rs
  next_lem [] c = rw c (get_allocated_lem s.mem (hi - 4) ∙ h.epilogue_head.flag_bit)
  next_lem (t ∷ ts) c = get_allocated_lem s.mem (x + n) ∙ c.0.head.flag_bit

  -- `free`, once the block before is known.
  pub free_behind_of :
      (size prev flag size1 flag1 : ℕ)
      → Boundary s.mem (x - 4) size flag
      → size ≤ x
      → x - size ≡ prev
      → Boundary s.mem prev size1 flag1
      → free (x + 4) s ≡ (
          if (next_flag rs == 1) && (flag1 == 1)
          then some (release_alone s x)
          else if (next_flag rs == 0) && (flag1 == 1)
          then some (release_next s x (x + n))
          else if (next_flag rs == 1) && (flag1 == 0)
          then some (release_prev s x prev)
          else if (next_flag rs == 0) && (flag1 == 0)
          then release_both s x (x + n) prev
          else none)
  free_behind_of size prev flag size1 flag1 b le e b1 =
      let place = here.0.place in
      free_eq s x (x + n) prev (next_flag rs) flag1 (header_and_payload place).2
        (get_nextheader_lem place h.words here.0.head) (get_prevheader_lem place h.words b le ∙ e)
        (next_lem rs here.1) (get_allocated_lem s.mem prev ∙ b1.flag_bit)
        (get_allocated_lem s.mem x ∙ here.0.head.flag_bit)
        (ground (arith, get_blocksize_lem x h.words, here.0.head.size_bits, here.0.least))
