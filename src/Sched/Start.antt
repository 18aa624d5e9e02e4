-- ===== src/Sched/Start.antt =====
-- src/actor_init.c: the lists, the example graph, its first packet, the first search for ready
-- actors, and `actor_check`. What `malloc` returns for the packet is an argument.
pub mod Created
mod Tests
use venus_scheduler.Prelude.{ℕ, Option, none, some, List, [], ◌∷◌, ◌-◌, ◌+◌, ◌%◌, ◌>>=◌}
use venus_scheduler.Sched.State.{Datum, Sched, scalar_label}
use venus_scheduler.Sched.Create.{packet_input}
use venus_scheduler.Sched.Graph.{GraphCall, depict, basic_dag_demo_2}
use venus_scheduler.Sched.Fire.{ready_search}
use venus_scheduler.Sched.Launch.{Blocks}
use venus_scheduler.Sched.Check.{Dispatch, Fired, actor_check}

unfoldable pub list_init : Sched → Sched
list_init s = record s { actor_l = []; ready_l = [] }

-- `actor_l->tail->prev` and the node before it, as the last item of the list and the last but one;
-- the items of the two sentinels are 0.
unfoldable pub last_item : List ℕ → ℕ
last_item [] = 0
last_item (x ∷ []) = x
last_item (x ∷ y ∷ ys) = last_item (y ∷ ys)

unfoldable pub last_but_one : List ℕ → ℕ
last_but_one [] = 0
last_but_one (x ∷ []) = 0
last_but_one (x ∷ y ∷ []) = x
last_but_one (x ∷ y ∷ z ∷ zs) = last_but_one (y ∷ z ∷ zs)

-- The blocks of memory for one packet: its data, the `data_t` and the `token_t`.
pub record Packet : Type 0 where
  pub data_addr : ℕ
  pub datum : ℕ
  pub token : ℕ

unfoldable pub send_packet : Packet → (ℕ → Datum) × Sched → (ℕ → Datum) × Sched
unfolding last_item
send_packet p (data_of, s) =
    packet_input p.datum p.token (last_item s.actor_l) p.data_addr scalar_label data_of s

-- NUM_PACKET is the number of packets.
unfoldable pub send_packets : List Packet → (ℕ → Datum) × Sched → (ℕ → Datum) × Sched
send_packets [] state = state
send_packets (p ∷ ps) state = send_packets ps (send_packet p state)

-- The second example graph, with the addresses of its actors and its fifos, and then the packets.
unfoldable pub dag_depict :
    (task_start task_len : ℕ) (a f : ℕ → ℕ)
    → List Packet
    → (ℕ → Datum) × Sched
    → Option ((ℕ → Datum) × Sched)
dag_depict task_start task_len a f packets (data_of, s) =
    depict (basic_dag_demo_2 task_start task_len a f) s >>= λ s'.
    some (send_packets packets (data_of, s'))

-- `actor_start` and `actor_space`
unfoldable pub para_init : Sched → ℕ × ℕ
para_init s = (
  last_item s.actor_l,
  (last_but_one s.actor_l + 0x100000000 - last_item s.actor_l) % 0x100000000,
)

unfoldable pub schedule_init : ℕ → Sched → Option Sched
schedule_init fuel s = ready_search fuel s

-- The two numbers of `para_init`, what is fired in `rounds` rounds of `actor_check`, and the state.
unfoldable pub actor_launch :
    (fuel rounds task_start task_len : ℕ) (a f : ℕ → ℕ)
    → List Packet
    → Dispatch
    → Option ((ℕ × ℕ) × (List Fired × Dispatch))
actor_launch fuel rounds task_start task_len a f packets d =
    dag_depict task_start task_len a f packets (d.data_of, list_init d.sched) >>= λ built.
    schedule_init fuel built.1 >>= λ s.
    some (para_init built.1, actor_check rounds (record d { sched = s; data_of = built.0 }))
