-- ===== src/Sched/Launch.antt =====
-- How a ready actor reaches a block: `inform_dma` of src/fire_check.c, as the transfers that it asks
-- for in their order, and the flags of a block in src/fire_check.c and src/task_callback.c.
pub mod Transfers
pub mod Flags
mod Tests
use Prim.Native.Nat.{bit_and, bit_or}
use venus_scheduler.Prelude.{
  ℕ, ◌+◌, ◌*◌, ◌%◌, ◌^◌, Bool, true, false, not, List, [], ◌∷◌, reverse, ◌==◌, if◌then◌else◌,
  update,
}
use venus_scheduler.Fifo.{null, IdleQueue, put_queue}
use venus_scheduler.Sched.State.{Datum, Token, Block, Sched, Ready}

abbrev pub block_ispm_offset : ℕ
block_ispm_offset = 0

abbrev pub block_sdspm_offset : ℕ
block_sdspm_offset = 0x100000

abbrev pub scalar_len : ℕ
scalar_len = 4

-- The arguments of a call of `dma_transfer_link`.
pub record Transfer : Type 0 where
  pub dst : ℕ
  pub src : ℕ
  pub len : ℕ
  pub block : ℕ
  pub token : ℕ

-- INFORM_DMA_IS_VECTOR
abbrev pub is_vector : ℕ → Bool
is_vector attr = not (bit_and attr 0x80000000 == 0)

abbrev pub block_if_last : ℕ → List ℕ → ℕ
block_if_last block [] = block
block_if_last block (t ∷ ts) = null

-- The loop over the dependencies, from the tail of the list to its head. A vector asks for nothing
-- yet; the last dependency visited carries the block.
pub inform_deps : (ℕ → Token) → (ℕ → Datum) → (base_addr block : ℕ) → List ℕ → List Transfer
inform_deps tokens data_of base_addr block [] = []
inform_deps tokens data_of base_addr block (t ∷ ts) =
    let rest = inform_deps tokens data_of base_addr block ts in
    if is_vector (tokens t).attr
    then rest
    else record {
      dst = (base_addr + block_sdspm_offset + (tokens t).attr * scalar_len) % 2 ^ 32;
      src = (data_of (tokens t).datum).ptr;
      len = scalar_len;
      block = block_if_last block ts;
      token = t;
    }
      ∷ rest

pub inform_dma : Sched → (ℕ → Datum) → (base_addr block : ℕ) → Ready → List Transfer
inform_dma s data_of base_addr block ready =
    record {
      dst = (base_addr + block_ispm_offset) % 2 ^ 32;
      src = (s.actors ready.actor_addr).task_addr;
      len = (s.actors ready.actor_addr).task_len;
      block = null;
      token = null;
    }
    ∷ inform_deps s.tokens data_of base_addr block (reverse ready.dep_list)

-- BLOCK_INFLIGHT, BLOCK_INFIFO and BLOCK_RESULT
abbrev pub block_inflight : ℕ
block_inflight = 1

abbrev pub block_infifo : ℕ
block_infifo = 2

abbrev pub block_result : ℕ
block_result = 4

pub set_block_flag : Block → ℕ → Block
set_block_flag block flags = record block { flags = bit_or block.flags flags }

pub clear_block_flag : Block → Block
clear_block_flag block = record block { flags = 0 }

-- What `actor_fire` does to the block: the flag, and the actor that is bound to it.
pub bind_block : Block → ℕ → Block
bind_block block actor = record (set_block_flag block block_inflight) { actor = actor }

-- The blocks by their address, and the queue of idle ones.
pub record Blocks : Type 0 where
  pub blocks : ℕ → Block
  pub block_q : IdleQueue

-- The first half of `block_handler`: whether `alloc_result` is called, and the flag set before.
pub recycle_result : ℕ → Blocks → Bool × Blocks
recycle_result b s =
    if bit_and (s.blocks b).flags block_inflight == 0
    then (false, s)
    else (true, record s { blocks = update s.blocks b (set_block_flag (s.blocks b) block_result) })

-- The second half.
pub enqueue_block : ℕ → Blocks → Blocks
enqueue_block b s =
    if bit_and (s.blocks b).flags block_infifo == 0
    then record {
      blocks = update s.blocks b (set_block_flag (s.blocks b) block_infifo);
      block_q = put_queue s.block_q b;
    }
    else s

-- Whether results are recycled, and the blocks afterwards; `alloc_result` changes neither the flags
-- nor the queue.
pub block_handler : ℕ → Blocks → Bool × Blocks
block_handler b s = let (recycles, s') = recycle_result b s in (recycles, enqueue_block b s')
