-- ===== src/Irq/Decode.antt =====
-- Which block and channel a key stands for, where the blocks lie, and which traps come back.
use Prim.Native.Nat.{bit_and}
use venus_scheduler.Prelude.{
  ℕ, zero, suc, ◌+◌, ◌*◌, ◌^◌, ◌<◌, ◌≤◌, ◌≡◌, refl, Bool, true, false, ◌&&◌, ◌||◌, not, arith, ◌==◌,
  if◌then◌else◌, Option, none, some, ◌>>=◌, List, ltb, leb,
}
use venus_scheduler.Irq.{
  num_clusters, num_blocks, base_addr, Call, block_handler, dma_transfer_done_handler, unknown,
  key_call, external_interrupt_handler, exception, interrupt, trap_handler,
}

-- The keys 1 to 8 stand for the blocks in the order of the array `block`.
pub key_call-block :
    (i j : ℕ)
    → i < num_clusters
    → j < num_blocks
    → key_call (49 + i * num_blocks + j) ≡ block_handler i j
unfolding key_call
key_call-block zero zero il jl = refl
key_call-block zero (suc zero) il jl = refl
key_call-block zero (suc (suc zero)) il jl = refl
key_call-block zero (suc (suc (suc zero))) il jl = refl
key_call-block (suc zero) zero il jl = refl
key_call-block (suc zero) (suc zero) il jl = refl
key_call-block (suc zero) (suc (suc zero)) il jl = refl
key_call-block (suc zero) (suc (suc (suc zero))) il jl = refl
key_call-block i (suc (suc (suc (suc j)))) il jl = absurd (omega arith)
key_call-block (suc (suc i)) j il jl = absurd (omega arith)

is_block : Call → Bool
is_block (block_handler i j) = true
is_block (dma_transfer_done_handler channel) = false
is_block unknown = false

-- A key calls the handler of a block exactly if it is one of the keys 1 to 8.
key_call-is_block : (c : ℕ) → is_block (key_call c) ≡ leb 49 c && leb c 56
unfolding key_call is_block
key_call-is_block c = ground arith

-- Two blocks of the array whose 4 MB overlap are the same block, and every block ends at 2^32 or
-- below.
pub base_addr-apart :
    (i j k l : ℕ)
    → i < num_clusters
    → j < num_blocks
    → k < num_clusters
    → l < num_blocks
    → base_addr i j < base_addr k l + 2 ^ 22
    → base_addr k l < base_addr i j + 2 ^ 22
    → (i ≡ k) × (j ≡ l) × (base_addr i j + 2 ^ 22 ≤ 2 ^ 32)
unfolding base_addr
base_addr-apart i j k l il jl kl ll lt gt = (omega arith, omega arith, omega arith)

-- The exceptions that hang.
abbrev pub fatal : ℕ → Bool
fatal code =
    not (code == 0) && (ltb code 10 || (code == 11) || (code == 12) || (code == 13) || (code == 15))

-- A trap by an exception with a fatal code never returns, an interrupt with code 11 returns to `epc`
-- if the calls for all waiting keys return, and any other trap returns to `epc` and calls nothing.
pub trap_handler_lem {ℓ} :
    {S : Type ℓ}
    → (handle : Call → S → Option S) (keys : List ℕ) (epc cause : ℕ) (s : S)
    → trap_handler handle keys epc cause s ≡ (
        if (bit_and cause 0x80000000 == 0) && fatal (bit_and cause 0xfff)
        then none
        else if not (bit_and cause 0x80000000 == 0) && (bit_and cause 0xfff == 11)
        then (external_interrupt_handler handle keys s >>= λ s. some (epc, s))
        else some (epc, s))
unfolding trap_handler exception interrupt
trap_handler_lem handle keys epc cause s = ground arith
