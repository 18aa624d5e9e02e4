-- ===== src/Pages/Oversize.antt =====
-- src/falloc.c, `malloc` for more pages than the pool has: the unsigned limit of the search wraps.
use venus_scheduler.Prelude.{
  ℕ, zero, suc, ◌+◌, ◌-◌, ◌*◌, ◌%◌, ◌^◌, ◌<◌, ◌≤◌, ◌≡◌, refl, ap, true, arith,
}
use venus_scheduler.Pages.{
  PageHeap, run_free, page_search, page_malloc, found_block, pages_for, last_start,
}
use venus_scheduler.Pages.Layout.Search.{page_search-here, is_free-zero}
use venus_scheduler.Pages.Malloc.{with_block}

run_free-zero :
    (n : ℕ) (flags : ℕ → ℕ) (j : ℕ)
    → ((x : ℕ) → j ≤ x → x < j + n → flags x ≡ 0)
    → run_free n flags j ≡ true
unfolding run_free
run_free-zero zero flags j z = refl
run_free-zero (suc n) flags j z =
    rw (is_free-zero flags j (z j (omega arith) (omega arith)))
      (run_free-zero n flags (j + 1) (λ x ge lt. z x (omega arith) (omega arith)))

first_block :
    (k : ℕ) (s : PageHeap) (left : ℕ)
    → ((x : ℕ) → x < suc k → s.flags x ≡ 0)
    → s.alloc_start < 2 ^ 32
    → found_block s (page_search (suc left) s.flags (suc k) 0) ≡ (with_block s k 0, s.alloc_start)
unfolding found_block
first_block k s left z below =
    let free = is_free-zero s.flags 0 (z 0 (omega arith)) in
    let run = run_free-zero k s.flags (0 + 1) (λ x ge lt. z x (omega arith)) in
    let address : (s.alloc_start + 0 * 256) % 0x100000000 ≡ s.alloc_start = omega arith in
    rw (page_search-here left k 0 s.flags free run, address) refl

-- A call of malloc for more pages than the pool has returns the pool's first page, if the
-- descriptors for so many pages read as 0, also those behind the table; the block ends behind the
-- pool. A call for 0 bytes asks for 2^24 pages.
pub page_malloc-past_end :
    (s : PageHeap) (size : ℕ)
    → s.alloc_start < 2 ^ 32
    → s.alloc_end ≡ s.alloc_start + 256 * s.num_pages
    → s.num_pages < pages_for size
    → ((x : ℕ) → x < pages_for size → s.flags x ≡ 0)
    → ((page_malloc s size).1 ≡ s.alloc_start)
      × (s.alloc_end < (page_malloc s size).1 + 256 * pages_for size)
      × (pages_for 0 ≡ 2 ^ 24)
unfolding page_malloc pages_for
page_malloc-past_end s size below ends more z =
    let k : ℕ = pages_for size - 1 in
    let npages : pages_for size ≡ suc k = omega arith in
    let left : ℕ = last_start s.num_pages (suc k) in
    let next : left + 1 ≡ suc left = omega arith in
    let block = first_block k s left (λ x lt. z x (omega arith)) below in
    let start : (page_malloc s size).1 ≡ s.alloc_start = rw (npages, next) (ap (λ r. r.1) block) in
    (start, rw start (omega arith), refl)
