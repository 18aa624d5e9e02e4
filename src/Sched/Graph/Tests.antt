-- ===== src/Sched/Graph/Tests.antt =====
-- The example graphs of src/dag.c, built at concrete addresses.
use venus_scheduler.Prelude.{
  ℕ, ◌+◌, ◌≡◌, refl, arith, Bool, true, false, List, [], ◌∷◌, any, Option, none, some,
}
use venus_scheduler.Sched.State.{Actor, Sched}
use venus_scheduler.Sched.Create.{
  nulls, null_rows, actor_create, edge_make, node_make_in, node_make_out, assign_root, assign_sink,
  set_first,
}
use venus_scheduler.Sched.Fire.{ins, outs}
use venus_scheduler.Sched.Fire.Search.{member}
use venus_scheduler.Sched.Fire.Take.{DistinctInputs}
use venus_scheduler.Sched.Graph.{
  GraphCall, create, edge, root, sink, make, depict, create_actors, basic_dag_demo_1,
  basic_dag_demo_2, dynamic_dag_demo, fan_in, fan_out,
}
use venus_scheduler.Sched.Graph.Inputs.{depict-DistinctInputs}

abbrev bare : Actor
bare = record { inputs = []; outputs = []; task_addr = 0; task_len = 0; dynamic = 0 }

abbrev empty : Sched
empty = record {
  fifos = λ f. record { token = λ i. 0; wptr = 0; rptr = 0 };
  tokens = λ t. record { datum = t; attr = 0 };
  actors = λ a. bare;
  actor_l = [];
  ready_l = [];
}

abbrev actor_at : ℕ → ℕ
actor_at i = 4096 + i

abbrev fifo_at : ℕ → ℕ
fifo_at i = 1024 + i

abbrev is_built : Option Sched → Bool
is_built none = false
is_built (some s) = true

abbrev inputs_of : Option Sched → ℕ → List ℕ
inputs_of none a = []
inputs_of (some s) a = ins s a

demo_1_inputs :
    inputs_of (depict (basic_dag_demo_1 16 4 actor_at fifo_at) empty) 4099
    ≡ 1028 ∷ 1026 ∷ 1029 ∷ 1030 ∷ []
unfolding depict make actor_create edge_make node_make_in node_make_out assign_root assign_sink
    set_first nulls null_rows basic_dag_demo_1 create_actors
demo_1_inputs = refl

demo_2_inputs :
    inputs_of (depict (basic_dag_demo_2 16 4 actor_at fifo_at) empty) 4100 ≡ 1030 ∷ 1031 ∷ 1032 ∷ []
unfolding depict make actor_create edge_make node_make_in node_make_out assign_root assign_sink
    set_first nulls null_rows basic_dag_demo_2 create_actors
demo_2_inputs = refl

dynamic_demo_inputs :
    inputs_of (depict (dynamic_dag_demo 16 4 actor_at fifo_at) empty) 4106
    ≡ 1033 ∷ 1034 ∷ 1035 ∷ 1036 ∷ 1037 ∷ 1038 ∷ 1039 ∷ 1040 ∷ 1041 ∷ []
unfolding depict make actor_create edge_make node_make_in node_make_out assign_root assign_sink
    set_first nulls null_rows dynamic_dag_demo fan_in fan_out create_actors
dynamic_demo_inputs = refl

abbrev or_empty : Option Sched → Sched
or_empty none = empty
or_empty (some s) = s

abbrev two_calls : List GraphCall
two_calls =
    create 4096 16 4
    ∷ create 4097 16 4
    ∷ edge 1024 4096 0 4097 0
    ∷ root 1025 4096
    ∷ sink 1026 4097
    ∷ []

depict-DistinctInputs_example :
    DistinctInputs (ins (or_empty (depict two_calls empty)) 4097)
    × ((g : ℕ)
        → member g (ins (or_empty (depict two_calls empty)) 4097) ≡ true
        → any (member g) (outs (or_empty (depict two_calls empty)) 4097) ≡ false)
unfolding depict make actor_create edge_make node_make_in node_make_out assign_root assign_sink
    set_first nulls null_rows
depict-DistinctInputs_example =
    depict-DistinctInputs two_calls empty (or_empty (depict two_calls empty)) 4097
      (tt, (tt, ((omega arith, omega arith), (omega arith, (omega arith, tt)))))
      (refl, (refl, (refl, tt))) (λ b. record { once = tt; apart = λ g nz inside. refl })
      (λ f b new. (refl, refl)) refl
