-- ===== src/Sched/Deliver/Hang.antt =====
-- The loop of `result_deliver` that waits for results which cannot arrive while it runs.
use venus_scheduler.Prelude.{
  ℕ, zero, suc, ◌≡◌, ◌≢◌, refl, Bool, true, false, not, List, [], ◌∷◌, reverse, arith, all, ◌==◌,
  ==_refl,
}
use venus_scheduler.Sched.Deliver.{
  Linger, Outputs, Delivery, done, spins, pass_tokens, release_expired, scheduler_pass_result,
  expect_next, check_if_done, visit_all, linger_loop, linger_insert, result_deliver,
}

abbrev pub is_other : ℕ → Linger → Bool
is_other ideal l = not (l.block == ideal)

module _ (outs : List (List ℕ)) where
  -- A traversal that finds nothing changes nothing.
  visit_none :
      (ls : List Linger) (s : Delivery)
      → all (is_other s.ideal_block) ls ≡ true
      → visit_all outs ls s ≡ done s
  unfolding visit_all check_if_done
  visit_none [] s none_here = refl
  visit_none (l ∷ ls) s none_here =
      let here : (l.block == s.ideal_block) ≡ false = ground arith in
      rw here (visit_none ls s (ground arith))

  linger_loop-spins :
      (rounds : ℕ) (o : Outputs) (fired : List ℕ) (l : Linger) (ls : List Linger) (ideal : ℕ)
      → all (is_other ideal) (l ∷ ls) ≡ true
      → linger_loop rounds outs
          (record { out = o; fire_list = fired; linger_list = l ∷ ls; ideal_block = ideal })
        ≡ spins
  unfolding linger_loop
  linger_loop-spins zero o fired l ls ideal none_here = refl
  linger_loop-spins (suc rounds) o fired l ls ideal none_here =
      rw
        (visit_none (l ∷ ls)
          (record { out = o; fire_list = fired; linger_list = l ∷ ls; ideal_block = ideal })
          none_here)
        (linger_loop-spins rounds o fired l ls ideal none_here)

-- When the oldest fired block ends while results wait, but not that of the block fired next, the
-- handler never ends.
pub result_deliver-spins :
    (rounds : ℕ) (outs : List (List ℕ)) (block : ℕ) (token_list : List ℕ) (l : Linger)
    (ls : List Linger) (next : ℕ) (later : List ℕ) (o : Outputs) (ideal : ℕ)
    → all (is_other next) (l ∷ ls) ≡ true
    → result_deliver rounds outs block token_list (record {
      out = o;
      fire_list = block ∷ next ∷ later;
      linger_list = l ∷ ls;
      ideal_block = ideal;
    })
      ≡ (false, spins)
unfolding result_deliver linger_insert scheduler_pass_result release_expired expect_next
result_deliver-spins rounds outs block token_list l ls next later o ideal none_here =
    rw
      (
        ==_refl block,
        linger_loop-spins outs rounds (pass_tokens (reverse token_list) outs o) (next ∷ later) l ls
            next none_here,
      )
      refl

two_waiting-spins :
    (rounds : ℕ) (outs : List (List ℕ)) (o : Outputs) (second third : Linger) (later : List ℕ)
    → second.block ≢ third.block
    → linger_loop rounds outs (record {
      out = o;
      fire_list = second.block ∷ third.block ∷ later;
      linger_list = third ∷ second ∷ [];
      ideal_block = second.block;
    })
      ≡ spins
unfolding linger_loop visit_all check_if_done scheduler_pass_result release_expired expect_next
two_waiting-spins zero outs o second third later ne = refl
two_waiting-spins (suc rounds) outs o second third later ne =
    let no_match : (third.block == second.block) ≡ false = ground arith in
    let still : all (is_other third.block) (second ∷ []) ≡ true = ground arith in
    rw (no_match, ==_refl second.block)
      (linger_loop-spins outs rounds (pass_tokens (reverse second.token_list) outs o)
        (third.block ∷ later) second [] third.block still)

-- When the results of the second and the third fired block have arrived in this order, and then the
-- first block ends, the handler never ends.
pub result_deliver-drops :
    (rounds : ℕ) (outs : List (List ℕ)) (block : ℕ) (token_list : List ℕ) (second third : Linger)
    (later : List ℕ) (o : Outputs) (ideal : ℕ)
    → second.block ≢ third.block
    → result_deliver rounds outs block token_list (record {
      out = o;
      fire_list = block ∷ second.block ∷ third.block ∷ later;
      linger_list = third ∷ second ∷ [];
      ideal_block = ideal;
    })
      ≡ (false, spins)
unfolding result_deliver linger_insert scheduler_pass_result release_expired expect_next
result_deliver-drops rounds outs block token_list second third later o ideal ne =
    rw
      (
        ==_refl block,
        two_waiting-spins rounds outs (pass_tokens (reverse token_list) outs o) second third later
            ne,
      )
      refl
