-- ===== src/Sched/Create.antt =====
-- src/actor_create.c: the calls that build the graph. The addresses that `malloc` returns are
-- arguments (`actor`, `fifo`, `datum`, `token`). `none` is an assertion that fails, or an index
-- outside an array.
pub mod Edges
mod Tests
use venus_scheduler.Prelude.{
  ℕ, Option, none, some, List, [], ◌∷◌, ◌==◌, ltb, if◌then◌else◌, update, get_elem?, set,
}
use venus_scheduler.Fifo.{null, fifo_full, put_token}
use venus_scheduler.Fifo.Contents.{head_or}
use venus_scheduler.Sched.State.{Datum, Sched, max_in, max_out, max_res}

unfoldable pub nulls : ℕ → List ℕ
nulls ℕ.zero = []
nulls (ℕ.suc n) = null ∷ nulls n

unfoldable pub null_rows : ℕ → List (List ℕ)
null_rows ℕ.zero = []
null_rows (ℕ.suc n) = nulls max_out ∷ null_rows n

unfoldable pub actor_create : (actor task_start task_len : ℕ) → Sched → Sched
actor_create actor task_start task_len s = record s {
  actors = update s.actors actor (record {
    inputs = nulls max_in;
    outputs = null_rows max_res;
    task_addr = task_start;
    task_len = task_len;
    dynamic = 0;
  });
  actor_l = actor ∷ s.actor_l;
}

-- `assert(array[snk_index] == NULL); array[snk_index] = fifo;`
unfoldable pub node_make_in : List ℕ → ℕ → ℕ → Option (List ℕ)
node_make_in array fifo snk_index = elim (get_elem? array snk_index) [
  | none ↦ none
  | some old ↦ if old == null then some (set array snk_index fifo) else none
]

-- The first unused slot gets the fifo; a row with no such slot is left as it is, with a message.
unfoldable pub node_make_out : List ℕ → ℕ → List ℕ
node_make_out [] fifo = []
node_make_out (x ∷ xs) fifo = if x == null then fifo ∷ xs else x ∷ node_make_out xs fifo

-- What the fifo holds is what the memory at its address held.
unfoldable pub edge_make : (fifo src dep_index snk snk_index : ℕ) → Sched → Option Sched
edge_make fifo src dep_index snk snk_index s =
    if ltb dep_index max_res
    then elim (get_elem? (s.actors src).outputs dep_index) [
      | none ↦ none
      | some r ↦
          let outputs = set (s.actors src).outputs dep_index (node_make_out r fifo) in
          let actors = update s.actors src (record (s.actors src) { outputs = outputs }) in
          elim (node_make_in (actors snk).inputs fifo snk_index) [
            | none ↦ none
            | some inputs ↦
                some (record s {
                  actors = update actors snk (record (actors snk) { inputs = inputs });
                })
          ]
    ]
    else none

-- The token is dropped, with a message, if the first input is full.
pub packet_input :
    (datum token actor data_addr token_attr : ℕ) → (ℕ → Datum) → Sched → (ℕ → Datum) × Sched
packet_input datum token actor data_addr token_attr data_of s =
    let data' = update data_of datum (record { ptr = data_addr; cnt = 1 }) in
    let tokens = update s.tokens token (record { datum = datum; attr = token_attr }) in
    let f = head_or null (s.actors actor).inputs in
    if fifo_full (s.fifos f) then (data', record s { tokens = tokens }) else (
      data',
      record s { tokens = tokens; fifos = update s.fifos f (put_token (s.fifos f) token) },
    )

unfoldable pub assign_root : (fifo actor : ℕ) → Sched → Sched
assign_root fifo actor s = record s {
  actors =
      update s.actors actor
        (record (s.actors actor) { inputs = set (s.actors actor).inputs 0 fifo });
}

unfoldable pub set_first : List (List ℕ) → ℕ → List (List ℕ)
set_first [] fifo = []
set_first (r ∷ rs) fifo = set r 0 fifo ∷ rs

unfoldable pub assign_sink : (fifo actor : ℕ) → Sched → Sched
unfolding set_first
assign_sink fifo actor s = record s {
  actors =
      update s.actors actor
        (record (s.actors actor) { outputs = set_first (s.actors actor).outputs fifo });
}

unfoldable pub assign_dynamic : ℕ → Sched → Sched
assign_dynamic actor s = record s {
  actors = update s.actors actor (record (s.actors actor) { dynamic = 1 });
}
