-- ===== src/Sched/Deliver/Order.antt =====
-- Results that wait in the order of the fire list reach the successors in that order.
use venus_scheduler.Prelude.{
  ℕ, zero, suc, ◌+◌, ◌-◌, ◌≤◌, ◌≡◌, refl, false, List, [], ◌∷◌, ◌++◌, map, reverse, ==_refl, length,
  ap, ◌∙◌,
}
use venus_scheduler.Fifo.{max_fifo}
use venus_scheduler.Fifo.Contents.{IsValid, occupancy, contents}
use venus_scheduler.Sched.Deliver.{
  Linger, Outputs, Delivery, done, pass_tokens, expect_next, release_expired, scheduler_pass_result,
  check_if_done, visit_all, linger_loop, linger_insert, result_deliver,
}
use venus_scheduler.Sched.Deliver.Passing.{
  Write, writes, unused, all_writes, all_unused, received, with_copies, applied, applied-append,
  pass_tokens-applied, contents-applied,
}

-- Passing the results of `ls`, one after the other.
pass_all : List (List ℕ) → List Linger → Outputs → Outputs
pass_all outs [] o = o
pass_all outs (l ∷ ls) o = pass_all outs ls (pass_tokens (reverse l.token_list) outs o)

abbrev pub blocks : List Linger → List ℕ
blocks ls = map (λ (l : Linger). l.block) ls

-- The state when the blocks of `ls` are the next that are expected, and their results wait.
abbrev pub waiting : Outputs → List Linger → List Linger → List ℕ → ℕ → Delivery
waiting o ls lingers later ideal = record {
  out = o;
  fire_list = blocks ls ++ later;
  linger_list = lingers;
  ideal_block = expect_next (blocks ls ++ later) ideal;
}

-- The block whose result was passed last.
abbrev pub last_block : ℕ → List Linger → ℕ
last_block i [] = i
last_block i (l ∷ ls) = last_block l.block ls

module _ (outs : List (List ℕ)) (later : List ℕ) where
  -- A traversal of such a list passes each of its results.
  visit_waiting :
      (ls : List Linger) (o : Outputs) (ideal : ℕ)
      → visit_all outs ls (waiting o ls ls later ideal)
        ≡ done (waiting (pass_all outs ls o) [] [] later (last_block ideal ls))
  unfolding visit_all pass_all check_if_done scheduler_pass_result release_expired expect_next
  visit_waiting [] o ideal = refl
  visit_waiting (l ∷ ls) o ideal =
      rw (==_refl l.block) (visit_waiting ls (pass_tokens (reverse l.token_list) outs o) l.block)

  linger_loop_empty :
      (rounds : ℕ) (o : Outputs) (ideal : ℕ)
      → linger_loop rounds outs (waiting o [] [] later ideal) ≡ done (waiting o [] [] later ideal)
  unfolding linger_loop
  linger_loop_empty zero o ideal = refl
  linger_loop_empty (suc rounds) o ideal = refl

  linger_loop-waiting :
      (rounds : ℕ) (ls : List Linger) (o : Outputs) (ideal : ℕ)
      → linger_loop (suc rounds) outs (waiting o ls ls later ideal)
        ≡ done (waiting (pass_all outs ls o) [] [] later (last_block ideal ls))
  unfolding linger_loop pass_all
  linger_loop-waiting rounds [] o ideal = refl
  linger_loop-waiting rounds (l ∷ ls) o ideal =
      rw (visit_waiting (l ∷ ls) o ideal)
        (linger_loop_empty rounds (pass_all outs (l ∷ ls) o) (last_block ideal (l ∷ ls)))

pass_all-applied :
    (outs : List (List ℕ)) (ls : List Linger) (o : Outputs)
    → pass_all outs ls o ≡ applied (all_writes outs ls o.fresh) (all_unused outs ls o.fresh) o
unfolding pass_all
pass_all-applied outs [] o = refl
pass_all-applied outs (l ∷ ls) o =
    let ts = reverse l.token_list in
    let left = unused ts outs o.fresh in
    ap (pass_all outs ls) (pass_tokens-applied ts outs o)
    ∙ pass_all-applied outs ls (applied (writes ts outs o.fresh) left o)
    ∙ applied-append (writes ts outs o.fresh) (all_writes outs ls left) left
        (all_unused outs ls left) o

result_deliver-pass_all :
    (rounds : ℕ) (outs : List (List ℕ)) (block : ℕ) (token_list : List ℕ) (ls : List Linger)
    (later : List ℕ) (o : Outputs) (ideal : ℕ)
    → result_deliver (suc rounds) outs block token_list (record {
      out = o;
      fire_list = block ∷ (blocks ls ++ later);
      linger_list = ls;
      ideal_block = ideal;
    })
      ≡ (
        false,
        done (record {
          out = pass_all outs (record { block = block; token_list = token_list } ∷ ls) o;
          fire_list = later;
          linger_list = [];
          ideal_block = expect_next later (last_block block ls);
        }),
      )
unfolding result_deliver linger_insert scheduler_pass_result release_expired pass_all
result_deliver-pass_all rounds outs block token_list ls later o ideal =
    rw
      (
        ==_refl block,
        linger_loop-waiting outs later rounds ls (pass_tokens (reverse token_list) outs o) block,
      )
      refl

-- The oldest fired block ends, while the linger list holds, from head to tail, the results of the
-- blocks that were fired after it in this order; since every arrival enters at the head, they came
-- in the reverse order. Then one round of the loop ends the delivery: the blocks leave the fire list,
-- nothing waits any more, and the block expected is the next one fired. A fifo that is valid and
-- has room for all that it receives holds behind its tokens those that the results bring it in the
-- order of firing: of each result its token for the first successor, a copy at a new address for
-- each further one, and a pseudo token for every successor of a result without a token. The copies
-- are made of the contents of the tokens, and the new addresses are used up in order.
pub result_deliver-in_order :
    (rounds : ℕ) (outs : List (List ℕ)) (block : ℕ) (token_list : List ℕ) (ls : List Linger)
    (later : List ℕ) (o : Outputs) (ideal f : ℕ) (ws : List Write)
    → all_writes outs (record { block = block; token_list = token_list } ∷ ls) o.fresh ≡ ws
    → IsValid (o.fifos f)
    → occupancy (o.fifos f) + length (received f ws) ≤ max_fifo - 1
    → (out : Outputs) × (result_deliver (suc rounds) outs block token_list (record {
      out = o;
      fire_list = block ∷ (blocks ls ++ later);
      linger_list = ls;
      ideal_block = ideal;
    })
        ≡ (
          false,
          done (record {
            out = out;
            fire_list = later;
            linger_list = [];
            ideal_block = expect_next later (last_block block ls);
          }),
        ))
      × (contents (out.fifos f) ≡ contents (o.fifos f) ++ received f ws)
      × (out.tokens ≡ with_copies ws o.tokens)
      × (out.fresh
          ≡ all_unused outs (record { block = block; token_list = token_list } ∷ ls) o.fresh)
result_deliver-in_order rounds outs block token_list ls later o ideal f ws e v room =
    let arrivals : List Linger = record { block = block; token_list = token_list } ∷ ls in
    let left = all_unused outs arrivals o.fresh in
    let passed : pass_all outs arrivals o ≡ applied ws left o =
      pass_all-applied outs arrivals o ∙ ap (λ l. applied l left o) e in
    (
      applied ws left o,
      result_deliver-pass_all rounds outs block token_list ls later o ideal ∙ rw passed refl,
      contents-applied ws left o f v room,
      refl,
      refl,
    )
