-- ===== src/Sched/Start/Tests.antt =====
-- The lists of src/actor_init.c for a small graph.
use venus_scheduler.Prelude.{◌≡◌, refl, List, [], ◌∷◌, Option, none, some, reverse}
use venus_scheduler.Sched.State.{Sched}
use venus_scheduler.Sched.Create.{actor_create}
use venus_scheduler.Sched.Graph.{GraphCall, create, make, depict}
use venus_scheduler.Sched.Start.{list_init, last_item, last_but_one, para_init}
use venus_scheduler.Sched.Start.Created.{depict-created_by}

abbrev empty : Sched
empty = record {
  fifos = λ f. record { token = λ i. 0; wptr = 0; rptr = 0 };
  tokens = λ t. record { datum = t; attr = 0 };
  actors = λ a. record { inputs = []; outputs = []; task_addr = 0; task_len = 0; dynamic = 0 };
  actor_l = 7 ∷ [];
  ready_l = [];
}

abbrev three : List GraphCall
three = create 4096 16 4 ∷ create 4160 16 4 ∷ create 4224 16 4 ∷ []

abbrev or_empty : Option Sched → Sched
or_empty none = empty
or_empty (some s) = s

depict-created_by_test :
    (reverse (or_empty (depict three (list_init empty))).actor_l ≡ 4096 ∷ 4160 ∷ 4224 ∷ [])
    × (last_item (or_empty (depict three (list_init empty))).actor_l ≡ 4096)
unfolding depict make actor_create list_init
depict-created_by_test =
    depict-created_by three empty (or_empty (depict three (list_init empty))) 4096
      (4160 ∷ 4224 ∷ []) (tt, (tt, (tt, tt))) refl refl

actor_bounds : para_init (or_empty (depict three (list_init empty))) ≡ (4096, 64)
unfolding para_init last_item last_but_one depict make actor_create list_init
actor_bounds = refl
