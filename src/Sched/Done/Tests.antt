-- ===== src/Sched/Done/Tests.antt =====
-- The end of a transfer of code on channel 2.
use venus_scheduler.Prelude.{◌≡◌, refl, false, some, [], ◌∷◌, arith}
use venus_scheduler.Dma.Phy.{is_channel_free, set_channel_idle}
use venus_scheduler.Sched.Recycle.{recycle_garbage}
use venus_scheduler.Sched.Recycle.Descriptors.{free_transfer_lem}
use venus_scheduler.Sched.Done.{Callback, ended, dma_transfer_done_handler}
use venus_scheduler.Sched.Done.Again.{
  dma_transfer_done_handler-again, dma_transfer_done_handler-code,
}

abbrev start : Callback
start = record {
  channel_status = 4;
  msg_array = λ c. record { lli = 64; block = 7; token_list = some (10 ∷ 20 ∷ []) };
  llis = λ a. record { ctl = 0; llp = 128; block_ts = 0; dar = 0; sar = 0 };
  blocks = λ b. record { flags = 0; base_addr = 0; actor = 0 };
  garbage = record {
    data_of = λ d. record { ptr = 900; cnt = 2 };
    freed_data = [];
    freed_tokens = [];
  };
  out = record {
    fifos = λ f. record { token = λ i. 0; wptr = 0; rptr = 0 };
    tokens = λ t. record { datum = 40; attr = 0 };
    fresh = [];
  };
  fire_lists = λ a. [];
  linger_lists = λ a. [];
  ideal_block = 0;
  freed_llis = [];
}

-- The state after it.
abbrev code_ended : Callback
code_ended = record start {
  channel_status = set_channel_idle 4 2;
  garbage = recycle_garbage start.out.tokens (10 ∷ 20 ∷ []) start.garbage;
  freed_llis = 64 ∷ 128 ∷ [];
}

code_transfer : dma_transfer_done_handler 1 (λ a. []) 2 start ≡ ended code_ended false
unfolding is_channel_free
code_transfer =
    dma_transfer_done_handler-code 1 (λ a. []) 2 start (10 ∷ 20 ∷ []) (64 ∷ 128 ∷ []) refl refl refl
      (free_transfer_lem 0 start.llis 64)

dma_transfer_done_handler-again_example :
    dma_transfer_done_handler 1 (λ a. []) 2 code_ended ≡ ended code_ended false
dma_transfer_done_handler-again_example =
    dma_transfer_done_handler-again 1 (λ a. []) 2 start code_ended false (omega arith) code_transfer
