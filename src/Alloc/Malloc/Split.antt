-- ===== src/Alloc/Malloc/Split.antt =====
-- `try_alloc_with_splitting` of src/mem_alloc.c: splitting a free block, on its boundary words.
use venus_scheduler.Prelude.{ℕ, ◌+◌, ◌-◌, ◌%◌, ◌^◌, ◌<◌, ◌≤◌, ◌≡◌, ◌≢◌, refl, arith, ◌∙◌}
use mathlib.Core.Path.{subst}
use venus_scheduler.Alloc.Block.{Memory, sub32, get_blocksize, set_blocksize}
use venus_scheduler.Alloc.Block.Words.{
  IsMemory, Boundary, get_blocksize_lem, set_blocksize_lem, set_allocated_lem,
}
use venus_scheduler.Alloc.Block.Bounds.{IsHeader, get_footer_lem, get_nextheader_lem}
use venus_scheduler.Alloc.Malloc.{set_boundary, split_block}

-- A block of `size` bytes with the same boundary word at both ends.
pub record IsBlock (m : Memory) (header size flag : ℕ) : Type 0 where
  pub place : IsHeader header size
  pub least : 16 ≤ size
  pub head : Boundary m header size flag
  pub foot : Boundary m (header + size - 4) size flag

-- The outcome of a write of one boundary word.
pub record Wrote (m g : Memory) (addr size flag : ℕ) : Type 0 where
  pub words : IsMemory g
  pub now : Boundary g addr size flag
  pub same : (b : ℕ) → b ≢ addr → g b ≡ m b

pub set_boundary_lem :
    {m : Memory} (w : IsMemory m) (addr flag size : ℕ)
    → flag < 2
    → size % 8 ≡ 0
    → size < 2 ^ 32
    → Wrote m (set_boundary m addr flag size) addr size flag
unfolding set_boundary
set_boundary_lem {m} w addr flag size hf hs lt =
    let (b1, w1, s1) = set_allocated_lem w addr flag hf refl in
    let (b2, w2, s2) = set_blocksize_lem w1 addr size hs lt b1.flag_bit in
    record { words = w2; now = b2; same = λ b ne. s2 b ne ∙ s1 b ne }

pub keep-Boundary :
    {m g : Memory} {addr size flag : ℕ}
    → Boundary m addr size flag
    → g addr ≡ m addr
    → Boundary g addr size flag
keep-Boundary b e = ground arith

-- The memories between the writes of `split_block`, with the addresses worked out.
module _ (m : Memory) (header size request : ℕ) where
  abbrev split1 : Memory
  split1 = set_blocksize m (header + size - 4) (size - request)

  abbrev split2 : Memory
  split2 = set_boundary split1 header 1 request

  abbrev split3 : Memory
  split3 = set_boundary split2 (header + request - 4) 1 request

  abbrev split4 : Memory
  split4 = set_boundary split3 (header + request) 0 (size - request)

module _ {m : Memory} {header size : ℕ} (request : ℕ) (w : IsMemory m)
    (block : IsBlock m header size 0) (whole : request % 8 ≡ 0) (least : 16 ≤ request)
    (room : request + 16 ≤ size) where
  open block use {place, head, foot}

  place1 : IsHeader header request
  place1 = omega arith

  place2 : IsHeader (header + request) (size - request)
  place2 = omega arith

  wrote1 :
      Boundary (split1 m header size request) (header + size - 4) (size - request) 0
      × IsMemory (split1 m header size request)
      × ((b : ℕ) → b ≢ header + size - 4 → split1 m header size request b ≡ m b)
  wrote1 =
      set_blocksize_lem w (header + size - 4) (size - request) (omega arith) (omega arith)
        foot.flag_bit

  wrote2 : Wrote (split1 m header size request) (split2 m header size request) header request 1
  wrote2 = set_boundary_lem wrote1.1 header 1 request (omega arith) whole (omega arith)

  wrote3 :
      Wrote
        (split2 m header size request)
        (split3 m header size request)
        (header + request - 4)
        request
        1
  wrote3 =
      set_boundary_lem wrote2.words (header + request - 4) 1 request (omega arith) whole
        (omega arith)

  wrote4 :
      Wrote
        (split3 m header size request)
        (split4 m header size request)
        (header + request)
        (size - request)
        0
  wrote4 =
      set_boundary_lem wrote3.words (header + request) 0 (size - request) (omega arith)
        (omega arith) (omega arith)

  split_block-eq : split_block m header request ≡ split4 m header size request
  unfolding split_block
  split_block-eq = rw (
    size_eq,
    get_footer_lem place w head (omega arith),
    rest_eq,
    get_footer_lem place1 wrote2.words wrote2.now (omega arith),
    get_nextheader_lem place1 wrote3.words
        (keep-Boundary wrote2.now (wrote3.same header (omega arith))),
  )
    where
      size_eq : get_blocksize m header ≡ size
      size_eq = get_blocksize_lem header w ∙ head.size_bits

      rest_eq : sub32 size request ≡ size - request
      rest_eq = omega arith

  split_same :
      (b : ℕ)
      → b ≢ header
      → b ≢ header + request - 4
      → b ≢ header + request
      → b ≢ header + size - 4
      → split4 m header size request b ≡ m b
  split_same b p q r t = wrote4.same b r ∙ wrote3.same b q ∙ wrote2.same b p ∙ wrote1.2 b t

  split_front : IsBlock (split4 m header size request) header request 1
  split_front = record {
    place = place1;
    least = least;
    head =
        keep-Boundary wrote2.now
          (wrote4.same header (omega arith) ∙ wrote3.same header (omega arith));
    foot = keep-Boundary wrote3.now (wrote4.same (header + request - 4) (omega arith));
  }

  split_back : IsBlock (split4 m header size request) (header + request) (size - request) 0
  split_back = record {
    place = place2;
    least = omega arith;
    head = wrote4.now;
    foot =
        subst (λ a. Boundary (split4 m header size request) a (size - request) 0) same_end
          (keep-Boundary wrote1.0 (
            wrote4.same (header + size - 4) (omega arith)
            ∙ wrote3.same (header + size - 4) (omega arith)
            ∙ wrote2.same (header + size - 4) (omega arith)));
  }
    where
      same_end : header + size - 4 ≡ header + request + (size - request) - 4
      same_end = omega arith

  -- Splitting a free block gives an allocated block of the requested size at its start and a free
  -- block of the rest behind it, and writes no word but their four boundary words.
  pub split_block_lem :
      let g = split_block m header request in
      IsMemory g
      × IsBlock g header request 1
      × IsBlock g (header + request) (size - request) 0
      × ((b : ℕ)
          → b ≢ header
          → b ≢ header + request - 4
          → b ≢ header + request
          → b ≢ header + size - 4
          → g b ≡ m b)
  split_block_lem = rw split_block-eq (wrote4.words, split_front, split_back, split_same)
