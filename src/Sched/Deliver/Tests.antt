-- ===== src/Sched/Deliver/Tests.antt =====
-- An actor with one result and one successor, the fifo 7.
use venus_scheduler.Prelude.{ℕ, ◌≡◌, refl, ◌+◌, false, List, [], ◌∷◌, arith}
use venus_scheduler.Sched.Deliver.{Linger, Outputs, done, spins, expect_next, result_deliver}
use venus_scheduler.Fifo.Contents.{IsValid, contents}
use venus_scheduler.Sched.Deliver.Passing.{Write, placed, copied, with_copies}
use venus_scheduler.Sched.Deliver.Order.{result_deliver-in_order}
use venus_scheduler.Sched.Deliver.Hang.{result_deliver-spins, result_deliver-drops}

abbrev outs : List (List ℕ)
outs = (7 ∷ []) ∷ []

abbrev start : Outputs
start = record {
  fifos = λ f. record { token = λ i. 0; wptr = 0; rptr = 0 };
  tokens = λ t. record { datum = t; attr = 0 };
  fresh = [];
}

abbrev result : ℕ → Linger
result block = record { block = block; token_list = (block + 1000) ∷ [] }

-- The blocks 1, 2 and 3 were fired, and the results of 2 and 3 wait. Fifo 7 gets the tokens, and
-- fifo 8 copies of them at the addresses 20, 21 and 22.
abbrev both : List (List ℕ)
both = (7 ∷ 8 ∷ []) ∷ []

abbrev stocked : Outputs
stocked = record start { fresh = 20 ∷ 21 ∷ 22 ∷ 23 ∷ [] }

abbrev moves : List Write
moves =
    placed 7 1001
    ∷ copied 8 20 1001
    ∷ placed 7 1002
    ∷ copied 8 21 1002
    ∷ placed 7 1003
    ∷ copied 8 22 1003
    ∷ []

eight-IsValid : IsValid (stocked.fifos 8)
eight-IsValid = record { wptr_in = omega arith; rptr_in = omega arith }

result_deliver-in_order_example :
    (out : Outputs) × (result_deliver 1 both 1 (1001 ∷ []) (record {
      out = stocked;
      fire_list = 1 ∷ 2 ∷ 3 ∷ 4 ∷ [];
      linger_list = result 2 ∷ result 3 ∷ [];
      ideal_block = 0;
    })
      ≡ (false, done (record { out = out; fire_list = 4 ∷ []; linger_list = []; ideal_block = 4 })))
    × (contents (out.fifos 8) ≡ 20 ∷ 21 ∷ 22 ∷ [])
    × (out.tokens ≡ with_copies moves stocked.tokens)
    × (out.fresh ≡ 23 ∷ [])
unfolding expect_next
result_deliver-in_order_example =
    result_deliver-in_order 0 both 1 (1001 ∷ []) (result 2 ∷ result 3 ∷ []) (4 ∷ []) stocked 0 8
      moves refl eight-IsValid (omega arith)

-- Only the result of 3 waits.
result_deliver-spins_example :
    result_deliver 50 outs 1 (1001 ∷ []) (record {
      out = start;
      fire_list = 1 ∷ 2 ∷ 3 ∷ [];
      linger_list = result 3 ∷ [];
      ideal_block = 0;
    })
    ≡ (false, spins)
result_deliver-spins_example =
    result_deliver-spins 50 outs 1 (1001 ∷ []) (result 3) [] 2 (3 ∷ []) start 0 refl

-- The result of 2 came before that of 3.
result_deliver-drops_example :
    result_deliver 50 outs 1 (1001 ∷ []) (record {
      out = start;
      fire_list = 1 ∷ 2 ∷ 3 ∷ [];
      linger_list = result 3 ∷ result 2 ∷ [];
      ideal_block = 0;
    })
    ≡ (false, spins)
result_deliver-drops_example =
    result_deliver-drops 50 outs 1 (1001 ∷ []) (result 2) (result 3) [] start 0
      (λ e. absurd (omega (arith, e)))
