-- ===== src/Pages/Malloc.antt =====
-- src/falloc.c, `malloc`: the pool as a row of pieces.
use mathlib.Core.Option.{some-injective}
use venus_scheduler.Prelude.{
  ℕ, suc, ◌+◌, ◌-◌, ◌*◌, ◌/◌, ◌%◌, ◌^◌, ◌<◌, ◌≤◌, ◌≡◌, ◌≢◌, refl, sym, ap, ◌∙◌, ◌⊎◌, arith, inl,
  inr, List, ◌∷◌, ◌++◌, none, some, Option-cases,
}
use venus_scheduler.Pages.{PageHeap, page_search, page_malloc, found_block, pages_for, last_start}
use venus_scheduler.Pages.Layout.{Piece, total, Holds, IsPages, untaken_run, taken, allocate}
use venus_scheduler.Pages.Layout.Marks.{marked}
use venus_scheduler.Pages.Layout.Search.{page_search-allocate, placed}
use venus_scheduler.Pages.Layout.Rows.{
  total-append, total-untaken_run, marked-Holds, IsPlaced, allocate-IsPlaced, allocate-first,
}

-- The pages of a block behind its first.
abbrev pub more_pages : ℕ → ℕ
more_pages size = (size - 1) / 256

pages_for-more_pages :
    (size : ℕ) → 0 < size → size < 2 ^ 32 → pages_for size ≡ suc (more_pages size)
unfolding pages_for
pages_for-more_pages size pos lt = omega arith

page_search-row :
    (s : PageHeap) (ps : List Piece) (size : ℕ)
    → IsPages s ps
    → 0 < size
    → size ≤ 256 * s.num_pages
    → page_search (last_start s.num_pages (pages_for size) + 1) s.flags (pages_for size) 0
      ≡ placed (more_pages size) s.flags 0 (allocate (more_pages size) ps)
unfolding last_start
page_search-row s ps size h pos le =
    let bound : 256 * s.num_pages < 2 ^ 32 = omega (arith, h.ends, h.below) in
    rw (pages_for-more_pages size pos (omega arith))
      (page_search-allocate ps (more_pages size) 0 _ s.flags h.row (omega (arith, h.all_pages)))

-- The pool with a block of `k + 1` pages at page `o`.
abbrev pub with_block : PageHeap → ℕ → ℕ → PageHeap
with_block s k o = record s { flags = marked k s.flags o }

pub row_total :
    (xs ys : List Piece) (k : ℕ)
    → total (xs ++ (untaken_run (suc k) ++ ys)) ≡ total (xs ++ taken k ∷ ys)
row_total xs ys k = omega (
  arith,
  total-append xs (untaken_run (suc k) ++ ys),
  total-append (untaken_run (suc k)) ys,
  total-untaken_run (suc k),
  total-append xs (taken k ∷ ys),
)

placed-IsPages :
    (s : PageHeap) (ps qs : List Piece) (k o : ℕ)
    → IsPages s ps
    → IsPlaced k ps o qs
    → IsPages (with_block s k o) qs
placed-IsPages s ps qs k o h at =
    let row : Holds s.flags 0 (at.front ++ (untaken_run (suc k) ++ at.back)) = rw at.was at h.row in
    let place : 0 + total at.front ≡ o = omega (arith, at.before) in
    record {
      all_pages =
          ap total at.is_now
          ∙ sym (row_total at.front at.back k)
          ∙ ap total (sym at.was)
          ∙ h.all_pages;
      row = rw (at.is_now, ← place) (marked-Holds at.front at.back k s.flags 0 row);
      aligned = h.aligned;
      positive = h.positive;
      ends = h.ends;
      below = h.below;
    }

IsPlaced-fits : (ps qs : List Piece) (k o : ℕ) → IsPlaced k ps o qs → o + suc k ≤ total ps
IsPlaced-fits ps qs k o at = omega (
  arith,
  at.before,
  ap total at.was,
  row_total at.front at.back k,
  total-append at.front (taken k ∷ at.back),
)

found_block-some :
    (s : PageHeap) (k o : ℕ) (qs : List Piece)
    → s.alloc_start + o * 256 < 2 ^ 32
    → found_block s (placed k s.flags 0 (some (o, qs)))
      ≡ (with_block s k o, s.alloc_start + 256 * o)
unfolding found_block
found_block-some s k o qs lt =
    let at : 0 + o ≡ o = omega arith in
    let address : (s.alloc_start + o * 256) % 0x100000000 ≡ s.alloc_start + 256 * o = omega arith in
    rw (at, address) refl

-- Of a pool that is a row of pieces, malloc for a size that is positive and not above that of all
-- pages returns either NULL and the same pool, and then the row has no run of free pages for the
-- size, or the address of the pages at which the row's first such run begins; then the pool is the
-- row with a block there.
pub page_malloc-allocate :
    (s : PageHeap) (ps : List Piece) (size : ℕ)
    → IsPages s ps
    → 0 < size
    → size ≤ 256 * s.num_pages
    → ((allocate (more_pages size) ps ≡ none) × (page_malloc s size ≡ (s, 0)))
      ⊎ ((o : ℕ) × (qs : List Piece) × (allocate (more_pages size) ps ≡ some (o, qs))
          × (page_malloc s size ≡ (with_block s (more_pages size) o, s.alloc_start + 256 * o))
          × IsPages (with_block s (more_pages size) o) qs)
unfolding page_malloc found_block
page_malloc-allocate s ps size h pos le =
    let search = page_search-row s ps size h pos le in
    elim (Option-cases (allocate (more_pages size) ps)) [
      | inl e ↦ inl (e, rw (search, e) refl)
      | inr ((o, qs), e) ↦
          let at = allocate-IsPlaced ps (more_pages size) o qs e in
          let fits = IsPlaced-fits ps qs (more_pages size) o at in
          inr (
            o,
            qs,
            e,
            rw (search, e)
                (found_block-some s (more_pages size) o qs
                  (omega (arith, fits, h.all_pages, h.ends, h.below))),
            placed-IsPages s ps qs (more_pages size) o h at,
          )
    ]

-- A block that malloc returns begins at a page, and its bytes lie in the pool.
pub page_malloc-fits :
    (s : PageHeap) (ps : List Piece) (size : ℕ)
    → IsPages s ps
    → 0 < size
    → size ≤ 256 * s.num_pages
    → (page_malloc s size).1 ≢ 0
    → ((page_malloc s size).1 % 256 ≡ 0)
      × (s.alloc_start ≤ (page_malloc s size).1)
      × ((page_malloc s size).1 + size ≤ s.alloc_end)
page_malloc-fits s ps size h pos le some_block = elim (page_malloc-allocate s ps size h pos le) [
  | inl (_, same) ↦ absurd (some_block (ap (λ r. r.1) same))
  | inr (o, qs, e, result, _) ↦
      let fits = IsPlaced-fits ps qs (more_pages size) o (allocate-IsPlaced ps _ o qs e) in
      let address = ap (λ r. r.1) result in
      rw address (omega (arith, h.aligned), omega arith, omega (arith, fits, h.all_pages, h.ends))
]

-- If there is a run of free pages for the size, malloc returns a block, and none that begins behind
-- the run's first page.
pub page_malloc-first :
    (s : PageHeap) (xs ys : List Piece) (size : ℕ)
    → IsPages s (xs ++ (untaken_run (suc (more_pages size)) ++ ys))
    → 0 < size
    → size ≤ 256 * s.num_pages
    → ((page_malloc s size).1 ≢ 0) × ((page_malloc s size).1 ≤ s.alloc_start + 256 * total xs)
page_malloc-first s xs ys size h pos le =
    let (o, qs, found, before) = allocate-first xs ys (more_pages size) in
    elim (page_malloc-allocate s (xs ++ (untaken_run (suc (more_pages size)) ++ ys)) size h pos
      le) [
        | inl (missing, _) ↦ absurd (ground (arith, found, missing))
        | inr (o', qs', e, result, _) ↦
            let same : o' ≡ o = ap (λ r. r.0) (some-injective (o', qs') (o, qs) (sym e ∙ found)) in
            rw (ap (λ r. r.1) result, same) (omega (arith, h.positive), omega arith)
      ]
