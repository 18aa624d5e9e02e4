-- ===== src/Sched/Fire.antt =====
-- src/fire_check.c: which actors are ready, what a ready actor takes from its fifos, and which
-- ready actor a block gets. `actor` is the address in the static variable of that name.
pub mod Rules
pub mod Search
pub mod Take
pub mod Select
pub mod Shorter
mod Tests
use venus_scheduler.Prelude.{
  ℕ, zero, suc, ◌+◌, Bool, true, false, not, ◌&&◌, Option, none, some, List, [], ◌∷◌, ◌++◌, reverse,
  ◌==◌, if◌then◌else◌, update,
}
use venus_scheduler.Fifo.{Fifo, null, fifo_empty, fifo_full, get_token, put_token, read_token}
use venus_scheduler.Fifo.Contents.{head_or}
use venus_scheduler.Sched.State.{
  Token, Actor, Ready, Block, Sched, pseudo_token, scalar_label, row, rows,
}

abbrev pub ins : Sched → ℕ → List ℕ
ins s actor = row (s.actors actor).inputs

abbrev pub outs : Sched → ℕ → List (List ℕ)
outs s actor = rows (s.actors actor).outputs

pub ready_inputs : (ℕ → Fifo) → List ℕ → Bool
ready_inputs fifos [] = true
ready_inputs fifos (f ∷ fs) =
    let rest = ready_inputs fifos fs in if fifo_empty (fifos f) then false else rest

pub actor_ready : Sched → ℕ → Bool
actor_ready s actor = ready_inputs s.fifos (ins s actor)

-- The two loops of `successor_full`, with its flag.
pub full_row : (ℕ → Fifo) → Bool → List ℕ → Bool
full_row fifos flag [] = flag
full_row fifos flag (f ∷ fs) = full_row fifos (flag && fifo_full (fifos f)) fs

pub full_rows : (ℕ → Fifo) → Bool → List (List ℕ) → Bool
full_rows fifos flag [] = flag
full_rows fifos flag (r ∷ rs) = full_rows fifos (full_row fifos flag r) rs

pub successor_full : Sched → ℕ → Bool
successor_full s actor = full_rows s.fifos true (outs s actor)

pub fire_check : Sched → ℕ → Bool
fire_check s actor = actor_ready s actor && not (successor_full s actor)

-- A pseudo task's tokens are taken and dropped.
pub drop_tokens : (ℕ → Fifo) → List ℕ → ℕ → Fifo
drop_tokens fifos [] = fifos
drop_tokens fifos (f ∷ fs) = drop_tokens (update fifos f (get_token (fifos f)).1) fs

-- The fifos, the tokens, and the list of dependencies that the loop of `ready_create` builds.
pub record Taken : Type 0 where
  pub fifos : ℕ → Fifo
  pub tokens : ℕ → Token
  pub dep_list : List ℕ

-- A scalar's attribute becomes the index of its input.
pub label_token : (ℕ → Token) → ℕ → ℕ → ℕ → Token
label_token tokens t i =
    if (tokens t).attr == scalar_label
    then update tokens t (record (tokens t) { attr = i })
    else tokens

-- One round of that loop, for the input `f` at index `i`.
pub take_token : ℕ → ℕ → Taken → Taken
take_token i f k =
    let (t, left) = get_token (k.fifos f) in
    let fifos = update k.fifos f left in
    if t == pseudo_token
    then record k { fifos = fifos }
    else record { fifos = fifos; tokens = label_token k.tokens t i; dep_list = t ∷ k.dep_list }

pub take_tokens : ℕ → List ℕ → Taken → Taken
take_tokens i [] k = k
take_tokens i (f ∷ fs) k = take_tokens (i + 1) fs (take_token i f k)

-- `none` for the NULL of a pseudo task. With no input at all the fifo at address 0 is read.
pub ready_create : Sched → ℕ → Option Ready × Sched
ready_create s actor =
    let inputs = ins s actor in
    let k = take_tokens 0 inputs (record { fifos = s.fifos; tokens = s.tokens; dep_list = [] }) in
    if read_token (s.fifos (head_or null inputs)) == pseudo_token
    then (none, record s { fifos = drop_tokens s.fifos inputs })
    else (
      some (record { actor_addr = actor; dep_list = k.dep_list }),
      record s { fifos = k.fifos; tokens = k.tokens },
    )

-- `insert(ready_l, …)` puts the actor at the head.
pub ready_insert : Ready → Sched → Sched
ready_insert r s = record s { ready_l = r ∷ s.ready_l }

unfoldable pub put_row : (ℕ → Fifo) → List ℕ → ℕ → Fifo
put_row fifos [] = fifos
put_row fifos (f ∷ fs) = put_row (update fifos f (put_token (fifos f) pseudo_token)) fs

-- A pseudo task passes a pseudo token to each successor.
pub pass_pseudo : (ℕ → Fifo) → List (List ℕ) → ℕ → Fifo
pass_pseudo fifos [] = fifos
pass_pseudo fifos (r ∷ rs) = pass_pseudo (put_row fifos r) rs

-- One round of the inner loop of `ready_search`, after `ready_create` and as a whole.
pub schedule_ready : ℕ → Option Ready × Sched → Sched
schedule_ready actor (some ready, s) = ready_insert ready s
schedule_ready actor (none, s) = record s { fifos = pass_pseudo s.fifos (outs s actor) }

pub fire_round : Sched → ℕ → Sched
unfolding schedule_ready
fire_round s actor = schedule_ready actor (ready_create s actor)

-- `while (fire_check())`, on fuel.
pub fire_loop : ℕ → ℕ → Sched → Option Sched
fire_loop zero actor s = none
fire_loop (suc fuel) actor s =
    let rest = fire_loop fuel actor (fire_round s actor) in
    if fire_check s actor then rest else some s

pub search_actors : ℕ → List ℕ → Sched → Option Sched
search_actors fuel [] s = some s
search_actors fuel (a ∷ actors) s = elim (fire_loop fuel a s) [
  | none ↦ none
  | some s' ↦ search_actors fuel actors s'
]

-- From the tail of `actor_l` to its head.
pub ready_search : ℕ → Sched → Option Sched
ready_search fuel s = search_actors fuel (reverse s.actor_l) s

-- `ready_select`: from the tail of `ready_l` to its head the first actor that the block ran last,
-- else the tail. The result is the actor and the list without it; `none` stands for the sentinel
-- of an empty list.
pub select_affine : ℕ → List Ready → Option (Ready × List Ready)
select_affine last_actor [] = none
select_affine last_actor (r ∷ rs) =
    let here = if r.actor_addr == last_actor then some (r, rs) else none in
    elim (select_affine last_actor rs) [ none ↦ here | some (q, qs) ↦ some (q, r ∷ qs) ]

pub split_last : List Ready → Option (Ready × List Ready)
split_last [] = none
split_last (r ∷ rs) = elim (split_last rs) [ none ↦ some (r, []) | some (q, qs) ↦ some (q, r ∷ qs) ]

pub ready_select : Block → List Ready → Option (Ready × List Ready)
ready_select block ready_l = elim (select_affine block.actor ready_l) [
  | none ↦ split_last ready_l
  | some found ↦ some found
]
