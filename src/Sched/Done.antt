-- ===== src/Sched/Done.antt =====
-- `dma_transfer_done_handler` of dma/transfer_callback.c: the interrupt at the end of a transfer.
-- A call of `ready_search` is part of the outcome: it is the last thing that the handler does.
pub mod Again
mod Tests
use Prim.Native.Nat.{bit_and}
use venus_scheduler.Prelude.{
  ℕ, Bool, true, false, not, Option, none, some, List, [], ◌++◌, ◌==◌, if◌then◌else◌, update,
}
use venus_scheduler.Dma.Phy.{is_channel_free, set_channel_idle}
use venus_scheduler.Dma.Config.{Lli}
use venus_scheduler.Dma.Link.{Msg}
use venus_scheduler.Sched.State.{Block}
use venus_scheduler.Sched.Launch.{block_result, clear_block_flag}
use venus_scheduler.Sched.Deliver.{
  Linger, Outputs, Delivery, Run, done, fault, spins, result_deliver,
}
use venus_scheduler.Sched.Recycle.{Garbage, recycle_garbage, free_transfer}

pub record Callback : Type 0 where
  pub channel_status : ℕ
  pub msg_array : ℕ → Msg
  pub llis : ℕ → Lli
  pub blocks : ℕ → Block
  pub garbage : Garbage
  pub out : Outputs
  pub fire_lists : ℕ → List ℕ
  pub linger_lists : ℕ → List Linger
  pub ideal_block : ℕ
  pub freed_llis : List ℕ

-- `ended` says whether `ready_search` is called. `crashes` is a read through NULL or from an empty
-- list, `hangs` a loop that goes on after the rounds given.
pub data Completion : Type 0 where
  ended : Callback → (ready_search : Bool) → Completion
  crashes : Completion
  hangs : Completion

-- The tokens of a message. A list that is NULL is read in vain, except for a result that is only
-- stored, and a result has a token.
abbrev pub with_tokens : Option (List ℕ) → (List ℕ → Completion) → Completion
with_tokens none f = crashes
with_tokens (some ts) f = f ts

-- The state after a delivery for the actor; the flags of the block are reset after it.
pub after_delivery : (actor block : ℕ) → Callback → Bool → Run → Completion
after_delivery actor block s disorder (done d) =
    ended
      (record s {
        out = d.out;
        fire_lists = update s.fire_lists actor d.fire_list;
        linger_lists = update s.linger_lists actor d.linger_list;
        ideal_block = d.ideal_block;
        blocks = update s.blocks block (clear_block_flag (s.blocks block));
      })
      (not disorder)
after_delivery actor block s disorder fault = crashes
after_delivery actor block s disorder spins = hangs

-- What is done with the tokens once the descriptors are freed.
pub end_transfer : ℕ → (ℕ → List (List ℕ)) → (block : ℕ) → List ℕ → Callback → Completion
end_transfer rounds outs block token_list s =
    let actor = (s.blocks block).actor in
    let (disorder, run) = result_deliver rounds (outs actor) block token_list (record {
      out = s.out;
      fire_list = s.fire_lists actor;
      linger_list = s.linger_lists actor;
      ideal_block = s.ideal_block;
    }) in
    let delivered = after_delivery actor block s disorder run in
    if bit_and (s.blocks block).flags block_result == 0
    then ended (record s { garbage = recycle_garbage s.out.tokens token_list s.garbage }) false
    else delivered

pub free_and_end : ℕ → (ℕ → List (List ℕ)) → Msg → Option (List ℕ) → Callback → Completion
free_and_end rounds outs msg none s = hangs
free_and_end rounds outs msg (some freed) s =
    with_tokens msg.token_list (λ ts.
      end_transfer rounds outs msg.block ts (record s { freed_llis = s.freed_llis ++ freed }))

-- The successors of each actor are `outs`.
pub dma_transfer_done_handler :
    ℕ → (ℕ → List (List ℕ)) → (channel_index : ℕ) → Callback → Completion
dma_transfer_done_handler rounds outs channel_index s =
    let msg = s.msg_array channel_index in
    let idle = record s { channel_status = set_channel_idle s.channel_status channel_index } in
    let busy = free_and_end rounds outs msg (free_transfer rounds s.llis msg.lli) idle in
    if is_channel_free s.channel_status channel_index == 0 then busy else ended s false
