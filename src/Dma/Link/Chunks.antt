-- ===== src/Dma/Link/Chunks.antt =====
-- How a transfer is cut into chunks.
use venus_scheduler.Prelude.{
  ℕ, zero, suc, ◌+◌, ◌-◌, ◌*◌, ◌/◌, ◌%◌, ◌^◌, ◌≡◌, refl, arith, ◌∙◌, ==_refl, sym,
}
use venus_scheduler.Alloc.Free.{malloc_lli}
use venus_scheduler.Dma.Config.{lli_setup, ctl_config, pow, pow_loop}
use venus_scheduler.Dma.Link.{Link, link_chunks, max_transfer_length}

-- The last descriptor of `n + 1` chunks points at itself, carries `last`, writes to the address
-- that every chunk writes to, reads four times `max_transfer_length` bytes further for each of the
-- `n` chunks before it, and counts in beats of 8 bytes what the length leaves modulo 2^32 after
-- `max_transfer_length` for each of them.
pub link_chunks_lem :
    (n dst src left current last : ℕ) (s : Link)
    → (link_chunks (suc n) dst src left current last s).1.llis
        (link_chunks (suc n) dst src left current last s).0
      ≡ record {
        ctl = ctl_config last;
        llp = (link_chunks (suc n) dst src left current last s).0;
        block_ts = ((left + n * (2 ^ 32 - max_transfer_length)) % 2 ^ 32) / 8;
        dar = dst;
        sar = src + n * (4 * max_transfer_length);
      }
unfolding link_chunks lli_setup pow pow_loop
link_chunks_lem zero dst src left current last s =
    let whole : left % 2 ^ 32 ≡ (left + 0 * (2 ^ 32 - max_transfer_length)) % 2 ^ 32 =
      omega arith in
    let start : src ≡ src + 0 * (4 * max_transfer_length) = omega arith in
    rw (==_refl current, whole, sym start) refl
link_chunks_lem (suc n) dst src left current last s =
    let (next, h) = malloc_lli s.heap in
    let llis = lli_setup dst src max_transfer_length current next 0 s.llis in
    let fewer = (left + 2 ^ 64 - max_transfer_length) % 2 ^ 64 in
    let less : (fewer + n * (2 ^ 32 - max_transfer_length)) % 2 ^ 32
        ≡ (left + suc n * (2 ^ 32 - max_transfer_length)) % 2 ^ 32 =
      omega arith in
    let further : src + 4 * max_transfer_length + n * (4 * max_transfer_length)
        ≡ src + suc n * (4 * max_transfer_length) =
      omega arith in
    link_chunks_lem n dst (src + 4 * max_transfer_length) fewer next last
      (record s { heap = h; llis = llis })
    ∙ rw (less, further) refl
