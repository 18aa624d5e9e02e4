-- ===== src/Sched/Graph.antt =====
-- src/dag.c: the example graphs, as the calls of src/actor_create.c that build them. The actors and
-- the fifos are what `malloc` returns, in order; the start and the length of a task are arguments,
-- since the build generates them.
pub mod Slots
pub mod Wiring
pub mod Depict
pub mod Inputs
mod Tests
use venus_scheduler.Prelude.{ℕ, ◌+◌, Option, none, some, List, [], ◌∷◌, ◌++◌, ◌>>=◌}
use venus_scheduler.Sched.State.{Sched}
use venus_scheduler.Sched.Create.{actor_create, edge_make, assign_root, assign_sink, assign_dynamic}

pub data GraphCall : Type 0 where
  create : (actor task_start task_len : ℕ) → GraphCall
  edge : (fifo src dep_index snk snk_index : ℕ) → GraphCall
  root : (fifo actor : ℕ) → GraphCall
  sink : (fifo actor : ℕ) → GraphCall
  dynamic : ℕ → GraphCall

unfoldable pub make : GraphCall → Sched → Option Sched
make (create actor task_start task_len) s = some (actor_create actor task_start task_len s)
make (edge fifo src dep_index snk snk_index) s = edge_make fifo src dep_index snk snk_index s
make (root fifo actor) s = some (assign_root fifo actor s)
make (sink fifo actor) s = some (assign_sink fifo actor s)
make (dynamic actor) s = some (assign_dynamic actor s)

unfoldable pub depict : List GraphCall → Sched → Option Sched
depict [] s = some s
depict (c ∷ cs) s = make c s >>= depict cs

-- The graphs; `a` gives the actors and `f` the fifos in the order of their allocation.
module _ (task_start task_len : ℕ) (a f : ℕ → ℕ) where
  unfoldable pub create_actors : ℕ → List GraphCall
  create_actors ℕ.zero = []
  create_actors (ℕ.suc n) = create_actors n ++ (create (a n) task_start task_len ∷ [])

  -- A, B, C and D are 0 to 3.
  unfoldable pub basic_dag_demo_1 : List GraphCall
  basic_dag_demo_1 =
      create_actors 4
      ++ (edge (f 0) (a 0) 0 (a 1) 0
          ∷ edge (f 1) (a 0) 0 (a 2) 0
          ∷ edge (f 2) (a 0) 0 (a 3) 1
          ∷ edge (f 3) (a 0) 1 (a 2) 1
          ∷ edge (f 4) (a 1) 0 (a 3) 0
          ∷ edge (f 5) (a 2) 0 (a 3) 2
          ∷ edge (f 6) (a 2) 1 (a 3) 3
          ∷ root (f 7) (a 0)
          ∷ sink (f 8) (a 3)
          ∷ [])

  -- A to E are 0 to 4.
  unfoldable pub basic_dag_demo_2 : List GraphCall
  basic_dag_demo_2 =
      create_actors 5
      ++ (edge (f 0) (a 0) 0 (a 1) 0
          ∷ edge (f 1) (a 0) 3 (a 1) 1
          ∷ edge (f 2) (a 0) 0 (a 2) 0
          ∷ edge (f 3) (a 0) 1 (a 2) 1
          ∷ edge (f 4) (a 0) 2 (a 2) 2
          ∷ edge (f 5) (a 0) 3 (a 3) 0
          ∷ edge (f 6) (a 1) 0 (a 4) 0
          ∷ edge (f 7) (a 2) 0 (a 4) 1
          ∷ edge (f 8) (a 3) 0 (a 4) 2
          ∷ root (f 9) (a 0)
          ∷ sink (f 10) (a 4)
          ∷ [])

  -- A is 0, R1 to R9 are 1 to 9, I is 10.
  unfoldable pub fan_out : ℕ → List GraphCall
  fan_out ℕ.zero = []
  fan_out (ℕ.suc n) = fan_out n ++ (edge (f n) (a 0) n (a (n + 1)) 0 ∷ [])

  unfoldable pub fan_in : ℕ → List GraphCall
  fan_in ℕ.zero = []
  fan_in (ℕ.suc n) = fan_in n ++ (edge (f (9 + n)) (a (n + 1)) 0 (a 10) n ∷ [])

  unfoldable pub dynamic_dag_demo : List GraphCall
  dynamic_dag_demo =
      create_actors 11 ++ fan_out 9 ++ fan_in 9 ++ (root (f 18) (a 0) ∷ sink (f 19) (a 10) ∷ [])
