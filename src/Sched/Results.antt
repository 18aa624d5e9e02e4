-- ===== src/Sched/Results.antt =====
-- `alloc_result` of src/task_callback.c: the transfers that bring back the results of a block, in
-- their order. The addresses that `malloc` gives for result `i` are `addrs i`.
pub mod Requests
mod Tests
use venus_scheduler.Prelude.{
  ℕ, zero, suc, ◌+◌, ◌*◌, ◌-◌, List, [], ◌∷◌, ◌==◌, ltb, if◌then◌else◌, length,
}
use venus_scheduler.Fifo.{null}
use venus_scheduler.Sched.State.{scalar_label}

-- RATEMATCH_NUM, in place of the register with the number of results
abbrev pub block_ret_num : ℕ
block_ret_num = 4

-- VenusBlock_RetAddr and VenusBlock_RetLen of include/hw/blockcsr.h
abbrev pub ret_addr : ℕ → ℕ
ret_addr idx = 0x30 + idx * 0x10

abbrev pub ret_len : ℕ → ℕ
ret_len idx = 0x38 + idx * 0x10

-- Where the data, their descriptor and their token are put.
pub record Addresses : Type 0 where
  pub alloc_addr : ℕ
  pub datum : ℕ
  pub token : ℕ

-- A call of `dma_transfer_link` with the descriptors made for it: `cnt` and `attr` are those of the
-- datum and of the token.
pub record Request : Type 0 where
  pub dst : ℕ
  pub src : ℕ
  pub len : ℕ
  pub block : ℕ
  pub token : ℕ
  pub datum : ℕ
  pub cnt : ℕ
  pub attr : ℕ

-- One round of the loops: the result `i` with its successors.
pub request : (ℕ → Addresses) → ℕ → List ℕ → ℕ → Request
request addrs i successors block = record {
  dst = (addrs i).alloc_addr;
  src = ret_addr i;
  len = ret_len i;
  block = block;
  token = (addrs i).token;
  datum = (addrs i).datum;
  cnt = length successors;
  attr = scalar_label;
}

abbrev pub block_if_end : ℕ → List (List ℕ) → ℕ
block_if_end block [] = block
block_if_end block (r ∷ rs) = null

-- The loop over the results of the actor; the last one carries the block.
pub static_results : (ℕ → Addresses) → (i block : ℕ) → List (List ℕ) → List Request
static_results addrs i block [] = []
static_results addrs i block (r ∷ rs) =
    request addrs i r (block_if_end block rs) ∷ static_results addrs (i + 1) block rs

-- The loop over the results that the block has, over the rounds left, when the actor has more.
pub dynamic_results : ℕ → (ℕ → Addresses) → (i block : ℕ) → List (List ℕ) → List Request
dynamic_results zero addrs i block rs = []
dynamic_results (suc left) addrs i block [] = []
dynamic_results (suc left) addrs i block (r ∷ rs) =
    request addrs i r (if i == block_ret_num - 1 then block else null)
    ∷ dynamic_results left addrs (i + 1) block rs

-- The three cases; the number of batches in the first is set to 1.
pub alloc_result : (ℕ → Addresses) → (block : ℕ) → List (List ℕ) → List Request
alloc_result addrs block outs =
    let task_ret_num = length outs in
    if ltb task_ret_num block_ret_num
    then static_results addrs 0 block outs
    else if block_ret_num == task_ret_num
    then static_results addrs 0 block outs
    else dynamic_results block_ret_num addrs 0 block outs
