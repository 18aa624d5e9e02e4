-- ===== src/Alloc/Layout.antt =====
-- The whole heap of src/mem_alloc.c: blocks without gaps from the prologue to the epilogue, and
-- the free ones in the free list.
pub mod Tiles
pub mod Split
pub mod Pieces
pub mod Inside
pub mod Allocate
pub mod Taken
pub mod Malloc
pub mod Init
pub mod Rows
pub mod OffList
pub mod Settle
pub mod Release
pub mod Dispatch
pub mod Free
pub mod Held
pub mod Clients
mod Tests
use venus_scheduler.Prelude.{
  ℕ, suc, ◌+◌, ◌-◌, ◌%◌, ◌^◌, ◌<◌, ◌≤◌, ◌≡◌, Bool, true, false, not, ◌&&◌, ◌||◌, List, [], ◌∷◌,
  ◌==◌, if◌then◌else◌, length, ltb, leb, has,
}
use venus_scheduler.Alloc.Block.{Memory, Heap}
use venus_scheduler.Alloc.Block.Words.{IsMemory, Boundary}
use venus_scheduler.Alloc.FreeList.Ring.{IsFreeList}
use venus_scheduler.Alloc.Malloc.Split.{IsBlock}

-- A block of the heap, in the order of the addresses.
pub record Tile : Type 0 where
  pub size : ℕ
  pub used : Bool

abbrev pub flag_of : Bool → ℕ
flag_of true = 1
flag_of false = 0

-- The blocks stand one behind the other from `a` to `e`.
abbrev pub Tiled : Memory → ℕ → List Tile → ℕ → Type 0
Tiled m a [] e = a ≡ e
Tiled m a (t ∷ ts) e = IsBlock m a t.size (flag_of t.used) × Tiled m (a + t.size) ts e

-- Whether a block, a free block, starts at `y`.
abbrev pub starts : ℕ → ℕ → List Tile → Bool
starts y a [] = false
starts y a (t ∷ ts) = (y == a) || starts y (a + t.size) ts

abbrev pub free_starts : ℕ → ℕ → List Tile → Bool
free_starts y a [] = false
free_starts y a (t ∷ ts) = ((y == a) && not t.used) || free_starts y (a + t.size) ts

-- Whether `b` is the header or the footer of a block.
abbrev pub boundary : ℕ → ℕ → List Tile → Bool
boundary b a [] = false
boundary b a (t ∷ ts) = (b == a) || (b == a + t.size - 4) || boundary b (a + t.size) ts

-- Whether `b` stands in a free block.
abbrev pub in_free : ℕ → ℕ → List Tile → Bool
in_free b a [] = false
in_free b a (t ∷ ts) = (not t.used && leb a b && ltb b (a + t.size)) || in_free b (a + t.size) ts

abbrev pub free_count : List Tile → ℕ
free_count [] = 0
free_count (t ∷ ts) = if t.used then free_count ts else suc (free_count ts)

-- The size of the block that starts at `x`, 0 if there is none.
abbrev pub tile_size : ℕ → ℕ → List Tile → ℕ
tile_size x a [] = 0
tile_size x a (t ∷ ts) = if x == a then t.size else tile_size x (a + t.size) ts

-- The block at `x` split after `request` bytes, of which the first part is allocated.
abbrev pub split_tile : (x request a : ℕ) → List Tile → List Tile
split_tile x request a [] = []
split_tile x request a (t ∷ ts) =
    if x == a
    then record { size = request; used = true }
      ∷ record { size = t.size - request; used = false }
      ∷ ts
    else t ∷ split_tile x request (a + t.size) ts

-- The heap between the addresses `lo` and `hi`, with the blocks `ts` and the free list `xs`.
pub record IsHeap (s : Heap) (lo hi : ℕ) (ts : List Tile) (xs : List ℕ) : Type 0 where
  pub words : IsMemory s.mem
  pub starts_at : s.alloc_start ≡ lo
  pub ends_at : s.alloc_end ≡ hi
  pub room : lo + 32 ≤ hi
  pub bound : hi < 2 ^ 32
  pub prologue_head : Boundary s.mem (lo + 4) 8 1
  pub prologue_foot : Boundary s.mem (lo + 8) 8 1
  pub epilogue_head : Boundary s.mem (hi - 4) 0 1
  pub tiled : Tiled s.mem (lo + 12) ts (hi - 4)
  pub free_list : IsFreeList s xs
  pub listed : (y : ℕ) → has y xs ≡ free_starts y (lo + 12) ts
  pub count : length xs ≡ free_count ts
