-- ===== src/Pages/Layout.antt =====
-- src/falloc.c: the page table as a row of free pages and of blocks, and what the two operations are
-- on such a row.
pub mod Marks
pub mod Search
pub mod Rows
pub mod Release
use venus_scheduler.Prelude.{
  ℕ, zero, suc, ◌+◌, ◌-◌, ◌*◌, ◌%◌, ◌^◌, ◌<◌, ◌≡◌, refl, arith, Bool, true, false, Option, none,
  some, List, [], ◌∷◌, ◌++◌, if◌then◌else◌,
}
use venus_scheduler.Pages.{PageHeap}

-- `taken k` is a block of `k + 1` pages.
pub data Piece : Type 0 where
  untaken : Piece
  taken : ℕ → Piece

abbrev pub pages : Piece → ℕ
pages untaken = 1
pages (taken k) = suc k

abbrev pub total : List Piece → ℕ
total [] = 0
total (p ∷ ps) = pages p + total ps

abbrev pub IsRun : (ℕ → ℕ) → ℕ → ℕ → Type 0
IsRun flags i zero = flags i ≡ 3
IsRun flags i (suc k) = (flags i ≡ 1) × IsRun flags (suc i) k

abbrev pub IsPiece : (ℕ → ℕ) → ℕ → Piece → Type 0
IsPiece flags i untaken = flags i ≡ 0
IsPiece flags i (taken k) = IsRun flags i k

abbrev pub Holds : (ℕ → ℕ) → ℕ → List Piece → Type 0
Holds flags i [] = Unit
Holds flags i (p ∷ ps) = IsPiece flags i p × Holds flags (i + pages p) ps

-- A pool of pages at multiples of the page size, below 2^32, with a table that is a row of pieces.
pub record IsPages (s : PageHeap) (ps : List Piece) : Type 0 where
  pub all_pages : total ps ≡ s.num_pages
  pub row : Holds s.flags 0 ps
  pub aligned : s.alloc_start % 256 ≡ 0
  pub positive : 0 < s.alloc_start
  pub ends : s.alloc_end ≡ s.alloc_start + 256 * s.num_pages
  pub below : s.alloc_end < 2 ^ 32

abbrev pub untaken_run : ℕ → List Piece
untaken_run zero = []
untaken_run (suc n) = untaken ∷ untaken_run n

abbrev pub starts_untaken : ℕ → List Piece → Bool
starts_untaken zero ps = true
starts_untaken (suc n) [] = false
starts_untaken (suc n) (untaken ∷ ps) = starts_untaken n ps
starts_untaken (suc n) (taken k ∷ ps) = false

abbrev pub without : ℕ → List Piece → List Piece
without zero ps = ps
without (suc n) [] = []
without (suc n) (p ∷ ps) = without n ps

abbrev pub behind : Piece → Option (ℕ × List Piece) → Option (ℕ × List Piece)
behind p none = none
behind p (some (o, ps)) = some (pages p + o, p ∷ ps)

-- A block of `k + 1` pages in the first run of free pages that is long enough: the number of pages
-- before it and the row with it.
abbrev pub allocate : ℕ → List Piece → Option (ℕ × List Piece)
allocate k [] = none
allocate k (taken m ∷ ps) = behind (taken m) (allocate k ps)
allocate k (untaken ∷ ps) =
    let later = allocate k ps in
    if starts_untaken k ps then some (0, taken k ∷ without k ps) else behind untaken later
