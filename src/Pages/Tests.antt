-- ===== src/Pages/Tests.antt =====
-- src/falloc.c on concrete pools.
use venus_scheduler.Prelude.{
  ℕ, ◌+◌, ◌*◌, ◌%◌, ◌^◌, ◌≤◌, ◌<◌, ◌≡◌, ◌≢◌, ◌⊎◌, refl, arith, List, [], ◌∷◌, none, some, update,
}
use venus_scheduler.Pages.{
  PageHeap, page_heap_init, page_malloc, page_malloc_lli, page_free, pages_for, page_search,
  is_free, run_free, found_block, last_start,
}
use venus_scheduler.Pages.Layout.{Piece, untaken, taken, untaken_run, IsPages, allocate}
use venus_scheduler.Pages.Malloc.{
  page_malloc-allocate, page_malloc-fits, page_malloc-first, with_block, more_pages,
}
use venus_scheduler.Pages.Free.{page_free-page_malloc, page_free-untaken}
use venus_scheduler.Pages.Init.{page_heap_init-IsPages}
use venus_scheduler.Pages.Oversize.{page_malloc-past_end}
use venus_scheduler.Pages.Calls.{Call, ask, give_back, run, code_step, page_run_refines}

-- Four pages; the second is a block.
abbrev table : ℕ → ℕ
table = update (λ _. 0) 1 3

abbrev four : PageHeap
four = record { alloc_start = 0x1000; alloc_end = 0x1400; num_pages = 4; flags = table }

abbrev four_row : List Piece
four_row = untaken ∷ taken 0 ∷ untaken ∷ untaken ∷ []

four-IsPages : IsPages four four_row
four-IsPages = record {
  all_pages = refl;
  row = (refl, (refl, (refl, (refl, tt))));
  aligned = refl;
  positive = omega arith;
  ends = refl;
  below = omega arith;
}

abbrev empty : PageHeap
empty = record { alloc_start = 0x1000; alloc_end = 0x1400; num_pages = 4; flags = λ _. 0 }

two_pages : pages_for 257 ≡ 2
unfolding pages_for
two_pages = refl

behind_the_block : (page_malloc four 300).1 ≡ 0x1200
unfolding page_malloc page_search run_free is_free found_block last_start pages_for
behind_the_block = refl

too_few : (page_malloc four 600).1 ≡ 0
unfolding page_malloc page_search run_free is_free found_block last_start pages_for
too_few = refl

descriptor : (page_malloc_lli four).1 ≡ 0x1000
unfolding page_malloc_lli page_malloc page_search run_free is_free found_block last_start pages_for
descriptor = refl

page_malloc-allocate_example :
    ((allocate (more_pages 300) four_row ≡ none) × (page_malloc four 300 ≡ (four, 0)))
    ⊎ ((o : ℕ) × (qs : List Piece) × (allocate (more_pages 300) four_row ≡ some (o, qs))
        × (page_malloc four 300 ≡ (with_block four (more_pages 300) o, 0x1000 + 256 * o))
        × IsPages (with_block four (more_pages 300) o) qs)
page_malloc-allocate_example =
    page_malloc-allocate four four_row 300 four-IsPages (omega arith) (omega arith)

page_malloc-fits_example :
    ((page_malloc four 300).1 % 256 ≡ 0)
    × (0x1000 ≤ (page_malloc four 300).1)
    × ((page_malloc four 300).1 + 300 ≤ 0x1400)
page_malloc-fits_example =
    page_malloc-fits four four_row 300 four-IsPages (omega arith) (omega arith)
      (omega (arith, behind_the_block))

page_malloc-first_example :
    ((page_malloc four 300).1 ≢ 0) × ((page_malloc four 300).1 ≤ 0x1000 + 256 * 2)
page_malloc-first_example =
    page_malloc-first four (untaken ∷ taken 0 ∷ []) [] 300 four-IsPages (omega arith) (omega arith)

page_free-page_malloc_example :
    (flags : ℕ → ℕ) × (page_free 4 (page_malloc four 300).0 (page_malloc four 300).1
      ≡ some (record four { flags = flags }))
    × ((x : ℕ) → flags x ≡ table x)
page_free-page_malloc_example =
    page_free-page_malloc 4 four four_row 300 four-IsPages (omega arith) (omega arith)
      (omega (arith, behind_the_block)) (omega arith)

page_free-untaken_example : page_free 1 four 0x1000 ≡ some four
page_free-untaken_example =
    page_free-untaken 1 four [] (taken 0 ∷ untaken ∷ untaken ∷ []) four-IsPages (omega arith)

page_heap_init-IsPages_example : IsPages (page_heap_init 0x80000000 (λ x. x)) (untaken_run 1000)
page_heap_init-IsPages_example = page_heap_init-IsPages 0x80000000 (λ x. x) (omega arith)

five_needed : pages_for 1025 ≡ 5
unfolding pages_for
five_needed = refl

page_malloc-past_end_example :
    ((page_malloc empty 1025).1 ≡ 0x1000)
    × (0x1400 < (page_malloc empty 1025).1 + 256 * pages_for 1025)
    × (pages_for 0 ≡ 2 ^ 24)
page_malloc-past_end_example =
    page_malloc-past_end empty 1025 (omega arith) refl (omega (arith, five_needed)) (λ _ _. refl)

abbrev some_calls : List Call
some_calls = ask 300 ∷ ask 700 ∷ give_back 0x1200 ∷ ask 100 ∷ give_back 0x1000 ∷ []

page_run_refines_example :
    (s' : PageHeap) × (run (code_step 4) some_calls four
      ≡ some (s', 0x1200 ∷ 0 ∷ 0 ∷ 0x1000 ∷ 0 ∷ []))
    × IsPages s' (untaken ∷ taken 0 ∷ untaken ∷ untaken ∷ [])
page_run_refines_example =
    page_run_refines 4 some_calls four four_row (untaken ∷ taken 0 ∷ untaken ∷ untaken ∷ [])
      (0x1200 ∷ 0 ∷ 0 ∷ 0x1000 ∷ 0 ∷ []) four-IsPages (omega arith) refl
