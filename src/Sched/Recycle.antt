-- ===== src/Sched/Recycle.antt =====
-- dma/transfer_callback.c: what is freed when a transfer has ended. What is freed is recorded in the
-- order of the calls; `free` itself and `free_LLI` are those of src/mem_alloc.c.
pub mod Counts
pub mod Descriptors
mod Tests
use venus_scheduler.Prelude.{
  ℕ, zero, suc, ◌+◌, ◌-◌, ◌%◌, ◌^◌, Option, none, some, List, [], ◌∷◌, ◌++◌, ◌==◌, if◌then◌else◌,
  update, ◌>>=◌,
}
use venus_scheduler.Sched.State.{Datum, Token}
use venus_scheduler.Dma.Config.{Lli}

-- The descriptors of data, those freed with their data, and the tokens freed.
pub record Garbage : Type 0 where
  pub data_of : ℕ → Datum
  pub freed_data : List ℕ
  pub freed_tokens : List ℕ

-- One round of the loop of `recycle_garbage`, for the token at `t` with the datum at `d`.
pub recycle_token : (ℕ → Token) → ℕ → Garbage → Garbage
recycle_token tokens t g =
    let d = (tokens t).datum in
    let cnt = (g.data_of d).cnt in
    let freed = record g {
      freed_data = g.freed_data ++ (d ∷ []);
      freed_tokens = g.freed_tokens ++ (t ∷ []);
    } in
    let counted = record g {
      data_of = update g.data_of d (record (g.data_of d) { cnt = (cnt + 2 ^ 32 - 1) % 2 ^ 32 });
      freed_tokens = g.freed_tokens ++ (t ∷ []);
    } in
    if cnt == 1 then freed else counted

pub recycle_garbage : (ℕ → Token) → List ℕ → Garbage → Garbage
recycle_garbage tokens [] g = g
recycle_garbage tokens (t ∷ ts) g = recycle_garbage tokens ts (recycle_token tokens t g)

-- The loop of `dma_transfer_done_handler` over the descriptors, and the call of `free_LLI` behind
-- it: the descriptors freed. The next pointer is read through `msg->lli`, the first descriptor,
-- whose words are taken to survive its release. `none` is a loop that goes on after the rounds.
pub freed_llis : ℕ → (ℕ → Lli) → (first lli nxt_lli : ℕ) → Option (List ℕ)
freed_llis zero llis first lli nxt_lli = if lli == nxt_lli then some (lli ∷ []) else none
freed_llis (suc rounds) llis first lli nxt_lli =
    let rest =
      freed_llis rounds llis first nxt_lli (llis first).llp >>= λ freed. some (lli ∷ freed) in
    if lli == nxt_lli then some (lli ∷ []) else rest

pub free_transfer : ℕ → (ℕ → Lli) → (first : ℕ) → Option (List ℕ)
free_transfer rounds llis first = freed_llis rounds llis first first (llis first).llp
