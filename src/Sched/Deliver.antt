-- ===== src/Sched/Deliver.antt =====
-- dma/transfer_callback.c: how the results of an actor reach its successors in the order in which it
-- was fired. A result that arrives early waits in the actor's linger list.
-- `outs` are the actor's successors, and `fresh` the addresses that `malloc` gives next, NULL once
-- they run out. A visit of `traverse` removes at most the first node of the list, never one ahead,
-- and the next pointer of a node is taken to survive its release, so the nodes visited are those of
-- the list at its start.
pub mod Passing
pub mod Order
pub mod Hang
mod Tests
use mathlib.Core.List.{tail}
use venus_scheduler.Prelude.{
  ℕ, zero, suc, Bool, true, false, not, List, [], ◌∷◌, ◌++◌, reverse, ◌==◌, if◌then◌else◌, update,
}
use venus_scheduler.Fifo.{Fifo, put_token}
use venus_scheduler.Fifo.Contents.{head_or}
use venus_scheduler.Sched.State.{Token}
use venus_scheduler.Sched.Fire.{put_row}

-- `linger_t`; the tokens from the head of their list to its tail
pub record Linger : Type 0 where
  pub block : ℕ
  pub token_list : List ℕ

-- What passing a result changes outside the actor.
pub record Outputs : Type 0 where
  pub fifos : ℕ → Fifo
  pub tokens : ℕ → Token
  pub fresh : List ℕ

-- With it the two lists of one actor and the variable `ideal_block`. `fire_list` goes from the tail
-- of the list, the oldest block, to its head; `linger_list` from head to tail.
pub record Delivery : Type 0 where
  pub out : Outputs
  pub fire_list : List ℕ
  pub linger_list : List Linger
  pub ideal_block : ℕ

-- `fault` is a node taken out of an empty list, or read from one; `spins` a loop that goes on after
-- the rounds given.
pub data Run : Type 0 where
  done : Delivery → Run
  fault : Run
  spins : Run

infixl 5 ◌and_then◌
abbrev pub ◌and_then◌ : Run → (Delivery → Run) → Run
done s and_then f = f s
fault and_then f = fault
spins and_then f = spins

-- The second and further fifos of a result get copies of its token.
pub put_copies : ℕ → List ℕ → Outputs → Outputs
put_copies original [] s = s
put_copies original (f ∷ fs) s =
    let dup = head_or 0 s.fresh in
    put_copies original fs (record s {
      fifos = update s.fifos f (put_token (s.fifos f) dup);
      tokens = update s.tokens dup (s.tokens original);
      fresh = tail s.fresh;
    })

pub put_result : ℕ → List ℕ → Outputs → Outputs
put_result original [] s = s
put_result original (f ∷ fs) s =
    put_copies original fs (record s { fifos = update s.fifos f (put_token (s.fifos f) original) })

-- The outer loop of `scheduler_pass_result`, over the tokens from the tail of their list and over
-- the results of the actor. A result without a token gets pseudo tokens.
pub pass_tokens : List ℕ → List (List ℕ) → Outputs → Outputs
pass_tokens ts [] s = s
pass_tokens [] (r ∷ rs) s = pass_tokens [] rs (record s { fifos = put_row s.fifos r })
pass_tokens (t ∷ ts) (r ∷ rs) s = pass_tokens ts rs (put_result t r s)

-- The rest of it: the oldest block of the fire list and the first node of the linger list go, and
-- the block that is expected next is looked up.
pub expect_next : List ℕ → ℕ → ℕ
expect_next [] ideal = ideal
expect_next (b ∷ bs) ideal = b

pub release_expired : List ℕ → List Linger → Delivery → Run
release_expired [] lingers s = fault
release_expired (b ∷ bs) [] s = fault
release_expired (b ∷ bs) (l ∷ lingers) s =
    done (record s {
      fire_list = bs;
      linger_list = lingers;
      ideal_block = expect_next bs s.ideal_block;
    })

pub scheduler_pass_result : List (List ℕ) → List ℕ → Delivery → Run
scheduler_pass_result outs token_list s =
    release_expired s.fire_list s.linger_list
      (record s { out = pass_tokens (reverse token_list) outs s.out })

pub check_if_done : List (List ℕ) → Linger → Delivery → Run
check_if_done outs linger s =
    if linger.block == s.ideal_block then scheduler_pass_result outs linger.token_list s else done s

-- `traverse(actor->linger_list, check_if_done)`
pub visit_all : List (List ℕ) → List Linger → Delivery → Run
visit_all outs [] s = done s
visit_all outs (l ∷ ls) s = check_if_done outs l s and_then visit_all outs ls

abbrev pub is_empty : List Linger → Bool
is_empty [] = true
is_empty (l ∷ ls) = false

-- `while (!is_list_empty(…))`, over the rounds given.
pub linger_loop : ℕ → List (List ℕ) → Delivery → Run
linger_loop zero outs s = if is_empty s.linger_list then done s else spins
linger_loop (suc rounds) outs s =
    let next = visit_all outs s.linger_list s and_then linger_loop rounds outs in
    if is_empty s.linger_list then done s else next

-- `linger_insert`, once the oldest block of the fire list is read into `ideal_block`.
pub linger_insert : (ideal block : ℕ) → List ℕ → Delivery → Delivery
linger_insert ideal block token_list s = record s {
  linger_list = record { block = block; token_list = token_list } ∷ s.linger_list;
  ideal_block = ideal;
}

-- `result_deliver`, with the block that has ended and its tokens: whether the arrival was out of
-- order, and the run. The helper has the fire list.
pub deliver_to : List ℕ → ℕ → List (List ℕ) → (block : ℕ) → List ℕ → Delivery → Bool × Run
deliver_to [] rounds outs block token_list s = (false, fault)
deliver_to (ideal ∷ later) rounds outs block token_list s =
    let s1 = linger_insert ideal block token_list s in
    let passed = scheduler_pass_result outs token_list s1 and_then linger_loop rounds outs in
    if block == ideal then (false, passed) else (true, done s1)

pub result_deliver : ℕ → List (List ℕ) → (block : ℕ) → List ℕ → Delivery → Bool × Run
unfolding deliver_to
result_deliver rounds outs block token_list s =
    deliver_to s.fire_list rounds outs block token_list s
