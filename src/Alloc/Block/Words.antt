-- ===== src/Alloc/Block/Words.antt =====
-- What a boundary word says after each write of src/mem_block.c.
use Prim.Native.Nat.{bit_and, bit_or}
use venus_scheduler.Prelude.{ℕ, ◌+◌, ◌*◌, ◌/◌, ◌%◌, ◌^◌, ◌<◌, ◌≡◌, ◌≢◌, arith, ap, ◌∙◌}
use venus_scheduler.Prelude.Bits.{
  bit_and_low, bit_and_size, bit_and_even, bit_or_flags, bit_or_even,
}
use venus_scheduler.Alloc.Block.{Memory, get_blocksize, set_blocksize, get_allocated, set_allocated}

-- Every word has 32 bits.
abbrev pub IsMemory : Memory → Type 0
IsMemory m = (a : ℕ) → m a < 2 ^ 32

-- The word at `addr` gives `size`, a multiple of eight, and `flag`; bits 1 and 2 are free.
pub record Boundary (m : Memory) (addr size flag : ℕ) : Type 0 where
  pub size_bits : m addr / 8 * 8 ≡ size
  pub flag_bit : m addr % 2 ≡ flag

pub get_blocksize_lem : {m : Memory} (addr : ℕ) → IsMemory m → get_blocksize m addr ≡ m addr / 8 * 8
unfolding get_blocksize
get_blocksize_lem {m} addr w = bit_and_size (m addr) (w addr)

pub get_allocated_lem : (m : Memory) (addr : ℕ) → get_allocated m addr ≡ m addr % 2
unfolding get_allocated
get_allocated_lem m addr = bit_and_low 1 (m addr)

set_blocksize-word :
    (m : Memory) (addr size : ℕ)
    → size % 8 ≡ 0
    → bit_or (bit_and (m addr) 0x7) size ≡ m addr % 8 + size
set_blocksize-word m addr size h =
    ap (λ r. bit_or r size) (bit_and_low 3 (m addr))
    ∙ ap (bit_or (m addr % 8)) eight
    ∙ bit_or_flags (m addr % 8) (size / 8) (omega arith)
    ∙ omega arith
  where
    eight : size ≡ 8 * (size / 8)
    eight = omega arith

set_allocated-word :
    (m : Memory) (addr flag : ℕ)
    → m addr < 2 ^ 32
    → flag < 2
    → bit_or (bit_and (m addr) 0xfffffffe) (bit_and flag 0x1) ≡ m addr / 2 * 2 + flag
set_allocated-word m addr flag w h =
    ap (λ r. bit_or r (bit_and flag 1)) (bit_and_even (m addr) w)
    ∙ ap (bit_or (m addr / 2 * 2)) (bit_and_low 1 flag)
    ∙ bit_or_even (m addr / 2) (flag % 2) (omega arith)
    ∙ omega arith

module _ {m : Memory} (w : IsMemory m) (addr : ℕ) where
  -- `set_blocksize` keeps the flag, and touches no other word.
  pub set_blocksize_lem :
      {flag : ℕ} (size : ℕ)
      → size % 8 ≡ 0
      → size < 2 ^ 32
      → m addr % 2 ≡ flag
      → Boundary (set_blocksize m addr size) addr size flag
        × IsMemory (set_blocksize m addr size)
        × ((b : ℕ) → b ≢ addr → set_blocksize m addr size b ≡ m b)
  unfolding set_blocksize
  set_blocksize_lem size h lt e = (
    ground (arith, set_blocksize-word m addr size h),
    λ b. ground (arith, set_blocksize-word m addr size h, w b),
    λ b ne. ground arith,
  )

  -- `set_allocated` keeps the size, and touches no other word.
  pub set_allocated_lem :
      {size : ℕ} (flag : ℕ)
      → flag < 2
      → m addr / 8 * 8 ≡ size
      → Boundary (set_allocated m addr flag) addr size flag
        × IsMemory (set_allocated m addr flag)
        × ((b : ℕ) → b ≢ addr → set_allocated m addr flag b ≡ m b)
  unfolding set_allocated
  set_allocated_lem flag h e = (
    ground (arith, set_allocated-word m addr flag (w addr) h),
    λ b. ground (arith, set_allocated-word m addr flag (w addr) h, w b),
    λ b ne. ground arith,
  )
