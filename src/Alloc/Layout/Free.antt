-- ===== src/Alloc/Layout/Free.antt =====
-- `free` of src/mem_alloc.c on the whole heap.
use venus_scheduler.Prelude.{
  ℕ, ◌+◌, ◌-◌, ◌≤◌, ◌≡◌, Bool, true, false, ◌&&◌, List, [], ◌∷◌, ◌++◌, ◌==◌, arith, if◌then◌else◌,
  none, some, ◌∙◌, sym, ap, erase,
}
use mathlib.Core.Path.{subst}
use mathlib.Core.List.{append_assoc}
use venus_scheduler.Alloc.Block.{Heap}
use venus_scheduler.Alloc.Block.Words.{Boundary}
use venus_scheduler.Alloc.Free.{free, release_alone, release_next, release_prev, release_both}
use venus_scheduler.Alloc.Malloc.Split.{IsBlock}
use venus_scheduler.Alloc.Layout.{Tile, IsHeap}
use venus_scheduler.Alloc.Layout.Rows.{extent, Tiled-split_at}
use venus_scheduler.Alloc.Layout.Settle.{vacant}
use venus_scheduler.Alloc.Layout.Release.{used}
use venus_scheduler.Alloc.Layout.Release.Alone.{release_alone-IsHeap}
use venus_scheduler.Alloc.Layout.Release.Next.{release_next-IsHeap}
use venus_scheduler.Alloc.Layout.Release.Prev.{release_prev-IsHeap}
use venus_scheduler.Alloc.Layout.Release.Both.{release_both-IsHeap}
use venus_scheduler.Alloc.Layout.Dispatch.{
  onto, onto-append, extent-append, place_of, place-next, joined, released, next_flag,
  free_behind_of,
}

-- `free` of the payload behind the header `x` returns, and leaves a whole heap of the blocks `ts`.
abbrev pub Frees : (s : Heap) (lo hi x : ℕ) (ts : List Tile) → Type 0
Frees s lo hi x ts =
    (s' : Heap) × (xs' : List ℕ) × (free (x + 4) s ≡ some s') × IsHeap s' lo hi ts xs'

module _ (s : Heap) (lo hi n : ℕ) (ls : List Tile) (xs : List ℕ) where
  -- Behind an allocated block, or the prologue.
  after_used :
      (rs : List Tile) (h : IsHeap s lo hi (ls ++ (used n ∷ rs)) xs) (size prev flag size1 : ℕ)
      → Boundary s.mem (extent (lo + 12) ls - 4) size flag
      → size ≤ extent (lo + 12) ls
      → extent (lo + 12) ls - size ≡ prev
      → Boundary s.mem prev size1 1
      → Frees s lo hi (extent (lo + 12) ls) (ls ++ joined n rs)
  after_used [] h size prev flag size1 b le e b1 = (
    release_alone s (extent (lo + 12) ls),
    extent (lo + 12) ls ∷ xs,
    free_behind_of s lo hi n ls [] xs h size prev flag size1 1 b le e b1,
    release_alone-IsHeap s lo hi n ls [] xs h,
  )
  after_used (t ∷ ts) h size prev flag size1 b le e b1 = by_flag t.size t.used h
    where
      by_flag :
          (k : ℕ) (u : Bool)
          → IsHeap s lo hi (ls ++ (used n ∷ record { size = k; used = u } ∷ ts)) xs
          → Frees s lo hi
              (extent (lo + 12) ls)
              (ls ++ joined n (record { size = k; used = u } ∷ ts))
      by_flag k true g = (
        release_alone s (extent (lo + 12) ls),
        extent (lo + 12) ls ∷ xs,
        free_behind_of s lo hi n ls (used k ∷ ts) xs g size prev flag size1 1 b le e b1,
        release_alone-IsHeap s lo hi n ls (used k ∷ ts) xs g,
      )
      by_flag k false g =
          let at = extent (lo + 12) ls in
          (
            release_next s at (at + n),
            at ∷ erase (at + n) xs,
            free_behind_of s lo hi n ls (vacant k ∷ ts) xs g size prev flag size1 1 b le e b1,
            release_next-IsHeap s lo hi n k ls ts xs g,
          )

-- The address that `free` computes with, where the block before is a free one of `j` bytes.
module _ (s : Heap) (lo hi j n : ℕ) (ls : List Tile) (xs : List ℕ) where
  abbrev at : ℕ
  at = extent (lo + 12) ls

  abbrev Choice : List Tile → ℕ → Type 0
  Choice rs z = free (z + 4) s ≡ (
      if (next_flag rs == 1) && (0 == 1)
      then some (release_alone s z)
      else if (next_flag rs == 0) && (0 == 1)
      then some (release_next s z (z + n))
      else if (next_flag rs == 1) && (0 == 0)
      then some (release_prev s z at)
      else if (next_flag rs == 0) && (0 == 0)
      then release_both s z (z + n) at
      else none)

  after_free_eq :
      (rs : List Tile) → IsHeap s lo hi (ls ++ (vacant j ∷ used n ∷ rs)) xs → Choice rs (at + j)
  after_free_eq rs h = subst (Choice rs) place (
      free_behind_of s lo hi n (ls ++ (vacant j ∷ [])) rs xs moved j at 0 j 0 foot
        (omega (arith, place)) (omega (arith, place)) block.head)
    where
      place : extent (lo + 12) (ls ++ (vacant j ∷ [])) ≡ at + j
      place = extent-append (lo + 12) ls (vacant j ∷ [])

      moved : IsHeap s lo hi ((ls ++ (vacant j ∷ [])) ++ (used n ∷ rs)) xs
      moved =
          subst (λ ts. IsHeap s lo hi ts xs) (sym (append_assoc ls (vacant j ∷ []) (used n ∷ rs))) h

      block : IsBlock s.mem at j 0
      block = (Tiled-split_at s.mem (vacant j ∷ used n ∷ rs) (hi - 4) (lo + 12) ls h.tiled).1.0

      foot : Boundary s.mem (extent (lo + 12) (ls ++ (vacant j ∷ [])) - 4) j 0
      foot = subst (λ z. Boundary s.mem (z - 4) j 0) (sym place) block.foot

  after_free :
      (rs : List Tile)
      → IsHeap s lo hi (ls ++ (vacant j ∷ used n ∷ rs)) xs
      → Frees s lo hi (at + j) (ls ++ joined (j + n) rs)
  after_free [] h = (
    release_prev s (at + j) at,
    at ∷ erase at xs,
    after_free_eq [] h,
    release_prev-IsHeap s lo hi n j ls [] xs h,
  )
  after_free (t ∷ ts) h = by_flag t.size t.used h
    where
      by_flag :
          (k : ℕ) (u : Bool)
          → IsHeap s lo hi (ls ++ (vacant j ∷ used n ∷ record { size = k; used = u } ∷ ts)) xs
          → Frees s lo hi (at + j) (ls ++ joined (j + n) (record { size = k; used = u } ∷ ts))
      by_flag k true g = (
        release_prev s (at + j) at,
        at ∷ erase at xs,
        after_free_eq (used k ∷ ts) g,
        release_prev-IsHeap s lo hi n j ls (used k ∷ ts) xs g,
      )
      by_flag k false g =
          let (s', r, whole) = release_both-IsHeap s lo hi j n k ls ts xs g in
          let next : at + j + n ≡ at + (j + n) = omega arith in
          (
            s',
            at ∷ erase at (erase (at + (j + n)) xs),
            after_free_eq (vacant k ∷ ts) g ∙ ap (λ z. release_both s (at + j) z at) next ∙ r,
            whole,
          )

module _ (s : Heap) (lo hi n : ℕ) (ls rs : List Tile) (xs : List ℕ) where
  free_behind_used :
      (j : ℕ)
      → IsHeap s lo hi (onto (used j ∷ ls) (used n ∷ rs)) xs
      → Frees s lo hi (place_of lo (used j ∷ ls)) (onto (used j ∷ ls) (joined n rs))
  free_behind_used j h =
      subst (Frees s lo hi (place_of lo (used j ∷ ls)))
        (sym (onto-append (used j ∷ ls) [] (joined n rs)))
        (after_used s lo hi n (onto (used j ∷ ls) []) xs rs moved j (place_of lo ls) 1 j
          (subst (λ z. Boundary s.mem (z - 4) j 1) (sym place) block.foot) (omega (arith, place))
          (omega (arith, place)) block.head)
    where
      place : place_of lo (used j ∷ ls) ≡ place_of lo ls + j
      place = place-next lo (used j) ls

      moved : IsHeap s lo hi (onto (used j ∷ ls) [] ++ (used n ∷ rs)) xs
      moved = subst (λ ts. IsHeap s lo hi ts xs) (onto-append (used j ∷ ls) [] (used n ∷ rs)) h

      block : IsBlock s.mem (place_of lo ls) j 1
      block =
          let row =
            subst (λ ts. IsHeap s lo hi ts xs) (onto-append ls [] (used j ∷ used n ∷ rs)) h in
          (Tiled-split_at s.mem (used j ∷ used n ∷ rs) (hi - 4) (lo + 12) (onto ls [])
            row.tiled).1.0

  free_behind_free :
      (j : ℕ)
      → IsHeap s lo hi (onto (vacant j ∷ ls) (used n ∷ rs)) xs
      → Frees s lo hi (place_of lo (vacant j ∷ ls)) (onto ls (joined (j + n) rs))
  free_behind_free j h =
      let row = subst (λ ts. IsHeap s lo hi ts xs) (onto-append ls [] (vacant j ∷ used n ∷ rs)) h in
      subst (Frees s lo hi (place_of lo (vacant j ∷ ls)))
        (sym (onto-append ls [] (joined (j + n) rs)))
        (subst (λ z. Frees s lo hi z (onto ls [] ++ joined (j + n) rs))
          (sym (place-next lo (vacant j) ls)) (after_free s lo hi j n (onto ls []) xs rs row))

  free_behind_any :
      (j : ℕ) (u : Bool)
      → IsHeap s lo hi (onto (record { size = j; used = u } ∷ ls) (used n ∷ rs)) xs
      → Frees s lo hi
          (place_of lo (record { size = j; used = u } ∷ ls))
          (released (record { size = j; used = u } ∷ ls) n rs)
  free_behind_any j true h = free_behind_used j h
  free_behind_any j false h = free_behind_free j h

-- `free` of the payload of an allocated block of a whole heap returns, its assertions holding, and
-- leaves a whole heap in which the block is free, and merged with each neighbour that was free.
pub free-IsHeap :
    (s : Heap) (lo hi n : ℕ) (ls rs : List Tile) (xs : List ℕ)
    → IsHeap s lo hi (onto ls (used n ∷ rs)) xs
    → Frees s lo hi (place_of lo ls) (released ls n rs)
free-IsHeap s lo hi n [] rs xs h =
    after_used s lo hi n [] xs rs h 8 (lo + 4) 1 8
      (subst (λ z. Boundary s.mem z 8 1) (omega arith) h.prologue_foot) (omega arith) (omega arith)
      h.prologue_head
free-IsHeap s lo hi n (l ∷ ls) rs xs h = free_behind_any s lo hi n ls rs xs l.size l.used h
