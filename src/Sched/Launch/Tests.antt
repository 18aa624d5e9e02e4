-- ===== src/Sched/Launch/Tests.antt =====
-- A ready actor and a block.
use venus_scheduler.Prelude.{ℕ, ◌+◌, ◌≡◌, [], ◌∷◌}
use venus_scheduler.Sched.State.{Datum, Sched}
use venus_scheduler.Sched.Launch.{Transfer, Blocks, inform_dma, block_handler}
use venus_scheduler.Sched.Launch.Transfers.{inform_dma_lem}
use venus_scheduler.Sched.Launch.Flags.{block_handler-again}

abbrev sched : Sched
sched = record {
  fifos = λ f. record { token = λ i. 0; wptr = 0; rptr = 0 };
  tokens = λ t. record { datum = t; attr = 1 };
  actors =
      λ a. record { inputs = []; outputs = []; task_addr = 0x80001000; task_len = 64; dynamic = 0 };
  actor_l = [];
  ready_l = [];
}

abbrev data_of : ℕ → Datum
data_of d = record { ptr = d + 0x80002000; cnt = 1 }

-- The word of a token, to the place of input 1.
abbrev word_of : (block t : ℕ) → Transfer
word_of block t = record {
  dst = 0x20100004;
  src = 0x80002000 + t;
  len = 4;
  block = block;
  token = t;
}

inform_dma_lem_example :
    inform_dma sched data_of 0x20000000 500
      (record { actor_addr = 80; dep_list = 30 ∷ 20 ∷ 10 ∷ [] })
    ≡ record { dst = 0x20000000; src = 0x80001000; len = 64; block = 0; token = 0 }
      ∷ word_of 0 10
      ∷ word_of 0 20
      ∷ word_of 500 30
      ∷ []
inform_dma_lem_example = inform_dma_lem sched data_of 0x20000000 500 80 30 (20 ∷ 10 ∷ [])

-- A block that has run a task, and an empty queue.
abbrev blocks : Blocks
blocks = record {
  blocks = λ b. record { flags = 1; base_addr = 0x20000000; actor = 80 };
  block_q = record { addr = 0; wptr = 0; rptr = 0 };
}

block_handler-again_example :
    (block_handler 500 (block_handler 500 blocks).1).1.block_q
    ≡ (block_handler 500 blocks).1.block_q
block_handler-again_example = block_handler-again 500 blocks
