-- ===== src/Sched/Done/Again.antt =====
-- A channel whose transfer has ended.
use Prim.Native.Nat.{bit_and}
use venus_scheduler.Prelude.{
  ℕ, ◌<◌, ◌≡◌, refl, Bool, true, false, Option, none, some, List, ◌++◌, ◌==◌, arith, Bool-cases,
  inl, inr, ap, sym, ◌∙◌, ==_refl,
}
use venus_scheduler.Dma.Phy.{is_channel_free, set_channel_idle}
use venus_scheduler.Dma.Phy.Channels.{set_channel_idle_lem}
use venus_scheduler.Dma.Link.{Msg}
use venus_scheduler.Sched.Deliver.{Run, done, fault, spins, result_deliver}
use venus_scheduler.Sched.Launch.{block_result}
use venus_scheduler.Sched.Recycle.{recycle_garbage, free_transfer}
use venus_scheduler.Sched.Done.{
  Callback, Completion, ended, crashes, hangs, with_tokens, after_delivery, end_transfer,
  free_and_end, dma_transfer_done_handler,
}

-- The channel table of an outcome, `old` if there is no state.
abbrev status : ℕ → Completion → ℕ
status old (ended s search) = s.channel_status
status old crashes = old
status old hangs = old

after_delivery-status :
    (actor block : ℕ) (s : Callback) (disorder : Bool) (run : Run)
    → status s.channel_status (after_delivery actor block s disorder run) ≡ s.channel_status
unfolding after_delivery
after_delivery-status actor block s disorder (done d) = refl
after_delivery-status actor block s disorder fault = refl
after_delivery-status actor block s disorder spins = refl

end_transfer-status :
    (rounds : ℕ) (outs : ℕ → List (List ℕ)) (block : ℕ) (ts : List ℕ) (s : Callback)
    → status s.channel_status (end_transfer rounds outs block ts s) ≡ s.channel_status
unfolding end_transfer
end_transfer-status rounds outs block ts s =
    let actor = (s.blocks block).actor in
    let r = result_deliver rounds (outs actor) block ts (record {
      out = s.out;
      fire_list = s.fire_lists actor;
      linger_list = s.linger_lists actor;
      ideal_block = s.ideal_block;
    }) in
    elim (Bool-cases (bit_and (s.blocks block).flags block_result == 0)) [
      | inl code ↦ rw code refl
      | inr result ↦ rw result (after_delivery-status actor block s r.0 r.1)
    ]

free_and_end-status :
    (rounds : ℕ) (outs : ℕ → List (List ℕ)) (msg : Msg) (freed : Option (List ℕ)) (s : Callback)
    → status s.channel_status (free_and_end rounds outs msg freed s) ≡ s.channel_status
unfolding free_and_end
free_and_end-status rounds outs msg none s = refl
free_and_end-status rounds outs msg (some freed) s = by_tokens msg.token_list
  where
    by_tokens :
        (ts : Option (List ℕ))
        → status s.channel_status (
            with_tokens ts (λ l.
              end_transfer rounds outs msg.block l
                (record s { freed_llis = s.freed_llis ++ freed })))
          ≡ s.channel_status
    by_tokens none = refl
    by_tokens (some ts) =
        end_transfer-status rounds outs msg.block ts
          (record s { freed_llis = s.freed_llis ++ freed })

-- On a free channel the handler changes nothing.
on_free_channel :
    (rounds : ℕ) (outs : ℕ → List (List ℕ)) (channel_index : ℕ) (s : Callback)
    → is_channel_free s.channel_status channel_index ≡ 1
    → dma_transfer_done_handler rounds outs channel_index s ≡ ended s false
unfolding dma_transfer_done_handler
on_free_channel rounds outs channel_index s e = rw e refl

free_if_not_busy : (st i : ℕ) → (is_channel_free st i == 0) ≡ false → is_channel_free st i ≡ 1
unfolding is_channel_free
free_if_not_busy st i e = ground arith

-- When the handler of one of the eight channels has ended, the channel is free.
freed_channel :
    (rounds : ℕ) (outs : ℕ → List (List ℕ)) (channel_index : ℕ) (s s' : Callback) (search : Bool)
    → channel_index < 8
    → dma_transfer_done_handler rounds outs channel_index s ≡ ended s' search
    → is_channel_free s'.channel_status channel_index ≡ 1
unfolding dma_transfer_done_handler
freed_channel rounds outs channel_index s s' search small e =
    elim (Bool-cases (is_channel_free s.channel_status channel_index == 0)) [
      | inl busy ↦
          let msg = s.msg_array channel_index in
          let idle = record s {
            channel_status = set_channel_idle s.channel_status channel_index;
          } in
          let run = rw busy at e in
          let kept =
            free_and_end-status rounds outs msg (free_transfer rounds s.llis msg.lli) idle in
          let same = ap (status idle.channel_status) run in
          let now = set_channel_idle_lem s.channel_status channel_index channel_index small small in
          let left : s'.channel_status ≡ set_channel_idle s.channel_status channel_index =
            sym same ∙ kept in
          ap (λ z. is_channel_free z channel_index) left ∙ now ∙ rw (==_refl channel_index) refl
      | inr free ↦
          let run = rw free at e in
          let same : s.channel_status ≡ s'.channel_status = ap (status s.channel_status) run in
          ap (λ z. is_channel_free z channel_index) (sym same)
          ∙ free_if_not_busy s.channel_status channel_index free
    ]

-- Once the handler of one of the eight channels has ended, a further interrupt of the same channel
-- changes nothing, frees nothing and searches for no actor.
pub dma_transfer_done_handler-again :
    (rounds : ℕ) (outs : ℕ → List (List ℕ)) (channel_index : ℕ) (s s' : Callback) (search : Bool)
    → channel_index < 8
    → dma_transfer_done_handler rounds outs channel_index s ≡ ended s' search
    → dma_transfer_done_handler rounds outs channel_index s' ≡ ended s' false
dma_transfer_done_handler-again rounds outs channel_index s s' search small e =
    on_free_channel rounds outs channel_index s'
      (freed_channel rounds outs channel_index s s' search small e)

-- On a busy channel, for a block whose result flag is clear, a transfer with tokens, and a loop that
-- frees the descriptors `freed`, the handler ends: the channel is idle, and the tokens are recycled; the block and the lists of its actor stay, and no actor is
-- searched for.
pub dma_transfer_done_handler-code :
    (rounds : ℕ) (outs : ℕ → List (List ℕ)) (channel_index : ℕ) (s : Callback) (ts freed : List ℕ)
    → is_channel_free s.channel_status channel_index ≡ 0
    → (bit_and (s.blocks (s.msg_array channel_index).block).flags block_result == 0) ≡ true
    → (s.msg_array channel_index).token_list ≡ some ts
    → free_transfer rounds s.llis (s.msg_array channel_index).lli ≡ some freed
    → dma_transfer_done_handler rounds outs channel_index s
      ≡ ended
          (record s {
            channel_status = set_channel_idle s.channel_status channel_index;
            garbage = recycle_garbage s.out.tokens ts s.garbage;
            freed_llis = s.freed_llis ++ freed;
          })
          false
unfolding dma_transfer_done_handler free_and_end end_transfer
dma_transfer_done_handler-code rounds outs channel_index s ts freed busy code tokens frees =
    rw (busy, frees, tokens, code) refl
