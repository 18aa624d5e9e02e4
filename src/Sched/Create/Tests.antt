-- ===== src/Sched/Create/Tests.antt =====
-- An edge between two actors.
use venus_scheduler.Prelude.{◌≡◌, refl, arith, some, [], ◌∷◌, get_elem?}
use venus_scheduler.Sched.State.{Actor, Sched}
use venus_scheduler.Sched.Create.{nulls, edge_make}
use venus_scheduler.Sched.Create.Edges.{edge_make_lem}

-- One result with one successor, and two free input slots.
abbrev actor : Actor
actor = record {
  inputs = 0 ∷ 0 ∷ [];
  outputs = (7 ∷ 0 ∷ 0 ∷ []) ∷ [];
  task_addr = 0;
  task_len = 0;
  dynamic = 0;
}

abbrev sched : Sched
sched = record {
  fifos = λ f. record { token = λ i. 0; wptr = 0; rptr = 0 };
  tokens = λ t. record { datum = t; attr = 0 };
  actors = λ a. actor;
  actor_l = [];
  ready_l = [];
}

edge_make_lem_test :
    (s' : Sched) × (edge_make 9 80 0 96 1 sched ≡ some s')
    × (get_elem? (s'.actors 80).outputs 0 ≡ some (7 ∷ 9 ∷ 0 ∷ []))
    × (get_elem? (s'.actors 96).inputs 1 ≡ some (9))
unfolding nulls
edge_make_lem_test = edge_make_lem 9 80 0 96 1 1 sched (7 ∷ []) (omega arith) refl refl refl
