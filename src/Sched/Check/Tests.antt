-- ===== src/Sched/Check/Tests.antt =====
-- Two ready actors and one idle block.
use venus_scheduler.Prelude.{[], ◌∷◌}
use venus_scheduler.Sched.Check.{Dispatch, actor_check}
use venus_scheduler.Sched.Check.Order.{Keeps, actor_check-Keeps}

abbrev start : Dispatch
start = record {
  sched = record {
    fifos = λ f. record { token = λ i. 0; wptr = 0; rptr = 0 };
    tokens = λ t. record { datum = 40; attr = 0 };
    actors = λ a. record { inputs = []; outputs = []; task_addr = 0; task_len = 0; dynamic = 0 };
    actor_l = [];
    ready_l =
        record { actor_addr = 100; dep_list = [] }
        ∷ record { actor_addr = 200; dep_list = [] }
        ∷ [];
  };
  data_of = λ d. record { ptr = 900; cnt = 1 };
  pool = record {
    blocks = λ b. record { flags = 2; base_addr = 0; actor = 100 };
    block_q = record { addr = 7; wptr = 1; rptr = 0 };
  };
  fire_lists = λ a. [];
}

actor_check-Keeps_example : Keeps start (actor_check 2 start).0 (actor_check 2 start).1 100
actor_check-Keeps_example = actor_check-Keeps 2 start 100
