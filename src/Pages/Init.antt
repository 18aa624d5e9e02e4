-- ===== src/Pages/Init.antt =====
-- src/falloc.c, `heap_init`.
use Prim.Native.Nat.{bit_and}
use venus_scheduler.Prelude.{ℕ, ◌+◌, ◌*◌, ◌/◌, ◌%◌, ◌^◌, ◌<◌, ◌≡◌, ◌∙◌, arith}
use venus_scheduler.Prelude.Bits.{bit_and_lowest, bit_and_low}
use venus_scheduler.Pages.{align_page, page_heap_init, clear_pages}
use venus_scheduler.Pages.Layout.{IsPages, untaken_run}
use venus_scheduler.Pages.Layout.Marks.{clear_pages-inside}
use venus_scheduler.Pages.Layout.Rows.{total-untaken_run, zero-untaken_run}

bit_and-twice : (x m : ℕ) → bit_and x (2 * m) ≡ bit_and (x / 2) m * 2
bit_and-twice x m =
    let half : 2 * m / 2 ≡ m = omega arith in bit_and_lowest x (2 * m) ∙ rw half (omega arith)

bit_and-times_16 : (x m : ℕ) → bit_and x (16 * m) ≡ bit_and (x / 16) m * 16
bit_and-times_16 x m =
    let sixteen : 16 * m ≡ 2 * (2 * (2 * (2 * m))) = omega arith in
    let deep : x / 16 ≡ x / 2 / 2 / 2 / 2 = omega arith in
    rw
      (
        sixteen,
        deep,
        bit_and-twice x (2 * (2 * (2 * m))),
        bit_and-twice (x / 2) (2 * (2 * m)),
        bit_and-twice (x / 2 / 2) (2 * m),
        bit_and-twice (x / 2 / 2 / 2) m,
      )
      (omega arith)

-- `x & 0xFFFFFF00` for a 32-bit word.
bit_and_page : (x : ℕ) → x < 2 ^ 32 → bit_and x 0xffffff00 ≡ x / 256 * 256
bit_and_page x h = omega (
  arith,
  bit_and-times_16 x 0xffffff0,
  bit_and-times_16 (x / 16) 0xffffff,
  bit_and_low 24 (x / 16 / 16),
)

-- An address that is not within the last page is rounded up to a page.
pub align_page_lem : (a : ℕ) → a + 255 < 2 ^ 32 → align_page a ≡ (a + 255) / 256 * 256
unfolding align_page
align_page_lem a lt =
    let fits : (a + 255) % 0x100000000 ≡ a + 255 = omega arith in
    rw fits (bit_and_page (a + 255) lt)

-- Whatever bytes lie at HEAP_START, heap_init makes a pool of 1000 free pages, if there is room for
-- the descriptors and the pages below 2^32.
pub page_heap_init-IsPages :
    (heap_start : ℕ) (bytes : ℕ → ℕ)
    → heap_start + 2048 * 256 + 255 + 256 * 1000 < 2 ^ 32
    → IsPages (page_heap_init heap_start bytes) (untaken_run 1000)
unfolding page_heap_init
page_heap_init-IsPages heap_start bytes lt =
    let inside : (heap_start + 2048 * 256) % 0x100000000 ≡ heap_start + 2048 * 256 = omega arith in
    let start = align_page_lem (heap_start + 2048 * 256) (omega arith) in
    record {
      all_pages = total-untaken_run 1000;
      row =
          zero-untaken_run 1000 (clear_pages 1000 bytes 0) 0
            (λ x ge lt. clear_pages-inside 1000 bytes 0 x ge lt);
      aligned = rw (inside, start) (omega arith);
      positive = rw (inside, start) (omega arith);
      ends = rw (inside, start) (omega arith);
      below = rw (inside, start) (omega arith);
    }
