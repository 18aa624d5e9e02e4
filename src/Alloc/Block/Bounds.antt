-- ===== src/Alloc/Block/Bounds.antt =====
-- The addresses of a block's parts, for a header that stands four past a multiple of eight.
use venus_scheduler.Prelude.{ℕ, ◌+◌, ◌-◌, ◌%◌, ◌^◌, ◌<◌, ◌≤◌, ◌≡◌, arith}
use venus_scheduler.Alloc.Block.{
  Memory, align_up, get_header, get_payload, get_footer, get_nextheader, get_prevheader,
}
use venus_scheduler.Alloc.Block.Words.{IsMemory, Boundary, get_blocksize_lem}

-- A block of `size` bytes fits behind the header in the address space.
pub record IsHeader (header size : ℕ) : Type 0 where
  pub aligned : header % 8 ≡ 4
  pub whole : size % 8 ≡ 0
  pub fits : header + size < 2 ^ 32 - 8

module _ {header size : ℕ} (h : IsHeader header size) where
  -- From its header or its payload, a block has this header and this payload.
  pub header_and_payload :
      (get_header header ≡ header)
      × (get_payload header ≡ header + 4)
      × (get_header (header + 4) ≡ header)
  unfolding get_header get_payload align_up
  header_and_payload = omega arith

  module _ {m : Memory} {flag : ℕ} (w : IsMemory m) (b : Boundary m header size flag) where
    pub get_footer_lem : 4 ≤ size → get_footer m header ≡ header + size - 4
    unfolding get_footer
    get_footer_lem pos = rw header_and_payload.0 (omega (arith, get_blocksize_lem header w))

    pub get_nextheader_lem : get_nextheader m header ≡ header + size
    unfolding get_nextheader
    get_nextheader_lem = rw header_and_payload.0 (omega (arith, get_blocksize_lem header w))

  -- The block before is found by its footer.
  pub get_prevheader_lem :
      {m : Memory} {prev_size prev_flag : ℕ}
      → IsMemory m
      → Boundary m (header - 4) prev_size prev_flag
      → prev_size ≤ header
      → get_prevheader m header ≡ header - prev_size
  unfolding get_prevheader
  get_prevheader_lem {m} {prev_size} w b le =
      rw (header_and_payload.0, before) (omega (arith, get_blocksize_lem (header - 4) w))
    where
      before : (header + 2 ^ 32 - 4) % 2 ^ 32 ≡ header - 4
      before = omega arith
