-- ===== src/Pages/Free.antt =====
-- src/falloc.c, `free`: blocks given back, and calls that change nothing.
use native.Mathlib.Decide.{dec_lt, dec_le}
use venus_scheduler.Prelude.{
  ℕ, zero, suc, ◌+◌, ◌-◌, ◌*◌, ◌/◌, ◌%◌, ◌<◌, ◌≤◌, ◌≡◌, ◌≢◌, refl, sym, ap, ◌∙◌, ◌||◌, true, false,
  leb, ◌==◌, arith, inl, inr, List, ◌∷◌, ◌++◌, some,
}
use venus_scheduler.Pages.{
  PageHeap, page_malloc, is_last, clear, clear_run, clear_pages, page_free, with_flags,
}
use venus_scheduler.Pages.Layout.{Piece, total, IsRun, Holds, IsPages, untaken, untaken_run, taken}
use venus_scheduler.Pages.Layout.Marks.{
  IsRun-frame, marked, marked-outside, clear_pages-inside, clear_pages-outside,
}
use venus_scheduler.Pages.Layout.Search.{is_free-IsRun, is_free-zero}
use venus_scheduler.Pages.Layout.Rows.{
  total-append, Holds-append, clear_pages-Holds, allocate-IsPlaced, untaken_run-zero,
}
use venus_scheduler.Pages.Malloc.{more_pages, row_total, page_malloc-allocate, with_block}

is_last-three : (flags : ℕ → ℕ) (i : ℕ) → flags i ≡ 3 → is_last flags i ≡ true
unfolding is_last
is_last-three flags i three = rw three refl

is_last-one : (flags : ℕ → ℕ) (i : ℕ) → flags i ≡ 1 → is_last flags i ≡ false
unfolding is_last
is_last-one flags i one = rw one refl

clear-other : (flags : ℕ → ℕ) (i x : ℕ) → i < x → flags x ≡ clear flags i x
unfolding clear
clear-other flags i x lt = ground arith

clear_run-IsRun :
    (k fuel : ℕ) (flags : ℕ → ℕ) (i : ℕ)
    → IsRun flags i k
    → k < fuel
    → clear_run fuel flags i ≡ some (clear_pages (suc k) flags i)
unfolding clear_run clear_pages
clear_run-IsRun k zero flags i run lt = absurd (omega arith)
clear_run-IsRun zero (suc fuel) flags i run lt =
    rw (is_free-IsRun 0 flags i run, is_last-three flags i run) refl
clear_run-IsRun (suc k) (suc fuel) flags i (one, run) lt =
    let next : i + 1 ≡ suc i = omega arith in
    let rest =
      clear_run-IsRun k fuel (clear flags i) (suc i)
        (IsRun-frame k flags (clear flags i) (suc i) (λ x ge _. clear-other flags i x (omega arith))
          run)
        (omega arith) in
    rw (is_free-IsRun (suc k) flags i (one, run), is_last-one flags i one, next) rest

page_free-page :
    (fuel : ℕ) (s : PageHeap) (ps : List Piece) (o : ℕ)
    → IsPages s ps
    → o < s.num_pages
    → page_free fuel s (s.alloc_start + 256 * o) ≡ with_flags s (clear_run fuel s.flags o)
unfolding page_free
page_free-page fuel s ps o h lt =
    let in_pool : (((s.alloc_start + 256 * o) == 0) || leb s.alloc_end (s.alloc_start + 256 * o))
        ≡ false =
      ground (arith, h.positive, h.ends) in
    let index : (s.alloc_start + 256 * o + 0x100000000 - s.alloc_start) % 0x100000000 / 256 ≡ o =
      omega (arith, h.ends, h.below) in
    rw (in_pool, index) refl

-- The pool without the block of `k + 1` pages at page `o`.
abbrev pub without_block : PageHeap → ℕ → ℕ → PageHeap
without_block s k o = record s { flags = clear_pages (suc k) s.flags o }

pub page_free-without_block :
    (fuel : ℕ) (s : PageHeap) (xs ys : List Piece) (k : ℕ)
    → IsPages s (xs ++ taken k ∷ ys)
    → k < fuel
    → page_free fuel s (s.alloc_start + 256 * total xs) ≡ some (without_block s k (total xs))
unfolding with_flags
page_free-without_block fuel s xs ys k h lt =
    let size = total-append xs (taken k ∷ ys) in
    let (_, (run, _)) = Holds-append xs (taken k ∷ ys) s.flags 0 h.row in
    let at : 0 + total xs ≡ total xs = omega arith in
    page_free-page fuel s (xs ++ taken k ∷ ys) (total xs) h (omega (arith, size, h.all_pages))
    ∙ rw (clear_run-IsRun k fuel s.flags (total xs) (rw at at run) lt) refl

pub without_block-IsPages :
    (s : PageHeap) (xs ys : List Piece) (k : ℕ)
    → IsPages s (xs ++ taken k ∷ ys)
    → IsPages (without_block s k (total xs)) (xs ++ (untaken_run (suc k) ++ ys))
without_block-IsPages s xs ys k h =
    let at : 0 + total xs ≡ total xs = omega arith in
    record {
      all_pages = row_total xs ys k ∙ h.all_pages;
      row = rw at at (clear_pages-Holds xs ys k s.flags 0 h.row);
      aligned = h.aligned;
      positive = h.positive;
      ends = h.ends;
      below = h.below;
    }

-- free of the address of a page that is free changes nothing, so that a block may be freed again.
pub page_free-untaken :
    (fuel : ℕ) (s : PageHeap) (xs ys : List Piece)
    → IsPages s (xs ++ untaken ∷ ys)
    → 0 < fuel
    → page_free fuel s (s.alloc_start + 256 * total xs) ≡ some s
page_free-untaken zero s xs ys h lt = absurd (omega arith)
page_free-untaken (suc fuel) s xs ys h lt =
    let size = total-append xs (untaken ∷ ys) in
    let (_, (free_page, _)) = Holds-append xs (untaken ∷ ys) s.flags 0 h.row in
    let at : 0 + total xs ≡ total xs = omega arith in
    page_free-page (suc fuel) s (xs ++ untaken ∷ ys) (total xs) h (omega (arith, size, h.all_pages))
    ∙ nothing (rw at at free_page)
  where
    nothing :
        s.flags (total xs) ≡ 0 → with_flags s (clear_run (suc fuel) s.flags (total xs)) ≡ some s
    nothing zero_flags =
        unfold with_flags clear_run in rw (is_free-zero s.flags (total xs) zero_flags) refl

cleared_marked :
    (k : ℕ) (flags : ℕ → ℕ) (a x : ℕ)
    → ((y : ℕ) → a ≤ y → y < a + suc k → flags y ≡ 0)
    → clear_pages (suc k) (marked k flags a) a x ≡ flags x
cleared_marked k flags a x free_pages = elim (dec_le a x) [
  | yes ge ↦ elim (dec_lt x (a + suc k)) [
    | yes lt ↦ clear_pages-inside (suc k) (marked k flags a) a x ge lt ∙ sym (free_pages x ge lt)
    | no past ↦
        clear_pages-outside (suc k) (marked k flags a) a x (inr (omega arith))
        ∙ marked-outside k flags a x (inr (omega arith))
  ]
  | no before ↦
      clear_pages-outside (suc k) (marked k flags a) a x (inl (omega arith))
      ∙ marked-outside k flags a x (inl (omega arith))
]

-- On a pool whose table is a row of pieces, free of what malloc returned for a size that is positive
-- and at most that of all pages, if it is not NULL, gives the pool from before the call again, with
-- every byte of the table and behind it as it was. A round for each page of the block is enough.
pub page_free-page_malloc :
    (fuel : ℕ) (s : PageHeap) (ps : List Piece) (size : ℕ)
    → IsPages s ps
    → 0 < size
    → size ≤ 256 * s.num_pages
    → (page_malloc s size).1 ≢ 0
    → more_pages size < fuel
    → (flags : ℕ → ℕ) × (page_free fuel (page_malloc s size).0 (page_malloc s size).1
        ≡ some (record s { flags = flags }))
      × ((x : ℕ) → flags x ≡ s.flags x)
page_free-page_malloc fuel s ps size h pos le some_block lt =
    elim (page_malloc-allocate s ps size h pos le) [
      | inl (_, same) ↦ absurd (some_block (ap (λ r. r.1) same))
      | inr (o, qs, e, result, new) ↦
          let at = allocate-IsPlaced ps (more_pages size) o qs e in
          let k : ℕ = more_pages size in
          let marks : ℕ → ℕ = marked k s.flags o in
          let row : Holds s.flags 0 (at.front ++ (untaken_run (suc k) ++ at.back)) =
            rw at.was at h.row in
          let (_, mid) = Holds-append at.front (untaken_run (suc k) ++ at.back) s.flags 0 row in
          let (run, _) =
            Holds-append (untaken_run (suc k)) at.back s.flags (0 + total at.front) mid in
          let place : 0 + total at.front ≡ o = omega (arith, at.before) in
          (
            clear_pages (suc k) marks o,
            rw (result, at.before)
                (page_free-without_block fuel (with_block s k (total at.front)) at.front at.back k
                  (rw (← at.before, ← at.is_now) new) lt),
            λ x.
                cleared_marked k s.flags o x
                  (λ y ge lt. untaken_run-zero (suc k) s.flags o y (rw place at run) ge lt),
          )
    ]
