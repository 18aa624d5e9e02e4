-- ===== src/Sched/Fire/Tests.antt =====
-- Two actors and their fifos.
use venus_scheduler.Prelude.{
  ℕ, ◌+◌, ◌≡◌, refl, false, some, List, [], ◌∷◌, arith, ◌==◌, if◌then◌else◌, all, any, ◌&&◌,
}
use venus_scheduler.Fifo.{Fifo}
use venus_scheduler.Fifo.Contents.{IsValid, contents}
use venus_scheduler.Sched.State.{Actor, Ready, Block, Sched}
use venus_scheduler.Sched.Fire.{
  Taken, take_tokens, fire_check, fire_loop, select_affine, ready_select,
}
use venus_scheduler.Sched.Fire.Rules.{has_token, has_room, fire_check_lem}
use venus_scheduler.Sched.Fire.Search.{fire_loop_total}
use venus_scheduler.Sched.Fire.Take.{dep_list-take_tokens, contents-take_tokens}
use venus_scheduler.Sched.Fire.Select.{Selection, ready_select-Selection}

-- Fifo 5 holds two tokens, fifo 6 a pseudo token, and the others none.
abbrev fifos : ℕ → Fifo
fifos f =
    if f == 5
    then record { token = λ i. 1000 + i; wptr = 2; rptr = 0 }
    else if f == 6
    then record { token = λ i. 666; wptr = 1; rptr = 0 }
    else record { token = λ i. 0; wptr = 0; rptr = 0 }

-- The actor at 80 reads the fifos 5 and 6 and writes 7.
abbrev actor : Actor
actor = record {
  inputs = 5 ∷ 6 ∷ 0 ∷ [];
  outputs = (7 ∷ 0 ∷ []) ∷ (0 ∷ []) ∷ [];
  task_addr = 0;
  task_len = 0;
  dynamic = 0;
}

abbrev sched : Sched
sched = record {
  fifos = fifos;
  tokens = λ t. record { datum = t; attr = 0 };
  actors = λ a. actor;
  actor_l = 80 ∷ [];
  ready_l = [];
}

five-IsValid : IsValid (fifos 5)
five-IsValid = record { wptr_in = omega arith; rptr_in = omega arith }

six-IsValid : IsValid (fifos 6)
six-IsValid = record { wptr_in = omega arith; rptr_in = omega arith }

seven-IsValid : IsValid (fifos 7)
seven-IsValid = record { wptr_in = omega arith; rptr_in = omega arith }

fire_loop_total_example :
    (s' : Sched) × (fire_loop 3 80 sched ≡ some s') × (fire_check s' 80 ≡ false)
fire_loop_total_example =
    fire_loop_total 3 sched 80 5 (6 ∷ []) refl refl refl five-IsValid (omega arith)

fire_check_lem_example :
    fire_check sched 80
    ≡ (all (has_token fifos) (5 ∷ 6 ∷ []) && any (any (has_room fifos)) ((7 ∷ []) ∷ []))
fire_check_lem_example =
    fire_check_lem sched 80 (five-IsValid, (six-IsValid, tt)) ((seven-IsValid, tt), tt)

abbrev nothing_taken : Taken
nothing_taken = record { fifos = fifos; tokens = sched.tokens; dep_list = [] }

dep_list-take_tokens_test : (take_tokens 0 (5 ∷ 6 ∷ []) nothing_taken).dep_list ≡ 1000 ∷ []
dep_list-take_tokens_test =
    dep_list-take_tokens (5 ∷ 6 ∷ []) 0 nothing_taken (refl, (refl, tt))
      (five-IsValid, (six-IsValid, tt))

contents-take_tokens_example :
    contents ((take_tokens 0 (5 ∷ 6 ∷ []) nothing_taken).fifos 5) ≡ 1001 ∷ []
contents-take_tokens_example =
    contents-take_tokens (5 ∷ 6 ∷ []) 0 nothing_taken 5 (refl, (refl, tt))
      (five-IsValid, (six-IsValid, tt))

abbrev waiting : List Ready
waiting =
    record { actor_addr = 80; dep_list = [] }
    ∷ record { actor_addr = 96; dep_list = [] }
    ∷ record { actor_addr = 80; dep_list = 3 ∷ [] }
    ∷ record { actor_addr = 112; dep_list = [] }
    ∷ []

-- A block that ran the actor at 80 last.
abbrev block : Block
block = record { flags = 0; base_addr = 0; actor = 80 }

ready_select-Selection_example : Selection 80 waiting (ready_select block waiting)
ready_select-Selection_example = ready_select-Selection block waiting

-- It gets the older of the two.
select_test :
    ready_select block waiting
    ≡ some (
      record { actor_addr = 80; dep_list = 3 ∷ [] },
      record { actor_addr = 80; dep_list = [] }
          ∷ record { actor_addr = 96; dep_list = [] }
          ∷ record { actor_addr = 112; dep_list = [] }
          ∷ [],
    )
unfolding ready_select select_affine
select_test = refl
