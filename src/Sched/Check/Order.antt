-- ===== src/Sched/Check/Order.antt =====
-- Which actors `actor_check` of src/fire_check.c fires, and their fire lists.
use mathlib.Core.List.{append-nil, append_assoc}
use venus_scheduler.Prelude.{
  ℕ, zero, suc, ◌+◌, ◌≡◌, refl, ◌&&◌, Option, none, some, List, [], ◌∷◌, ◌++◌, leb, ◌==◌,
  if◌then◌else◌, length, length-append, arith, Bool-cases, inl, inr, ◌∙◌, ap, sym,
}
use venus_scheduler.Fifo.{queue_size, get_queue}
use venus_scheduler.Sched.State.{Ready}
use venus_scheduler.Sched.Fire.{ready_select}
use venus_scheduler.Sched.Fire.Shorter.{Shorter, ready_select-Shorter}
use venus_scheduler.Sched.Check.{
  Dispatch, Fired, add_firelist, actor_fire, fire_selected, is_ready, check_round, actor_check,
}

-- The blocks that an actor was fired on.
abbrev pub blocks_of : ℕ → List Fired → List ℕ
blocks_of actor [] = []
blocks_of actor (f ∷ fs) =
    if f.actor == actor then f.block ∷ blocks_of actor fs else blocks_of actor fs

blocks_of-append :
    (actor : ℕ) (fs gs : List Fired)
    → blocks_of actor (fs ++ gs) ≡ blocks_of actor fs ++ blocks_of actor gs
blocks_of-append actor [] gs = refl
blocks_of-append actor (f ∷ fs) gs = elim (Bool-cases (f.actor == actor)) [
  | inl here ↦ rw here (ap (λ bs. f.block ∷ bs) (blocks_of-append actor fs gs))
  | inr other ↦ rw other (blocks_of-append actor fs gs)
]

-- What a run that fired `fs` keeps.
abbrev pub Keeps : Dispatch → List Fired → Dispatch → ℕ → Type 0
Keeps s fs s' actor =
    (s'.fire_lists actor ≡ s.fire_lists actor ++ blocks_of actor fs)
    × (length s'.sched.ready_l + length fs ≡ length s.sched.ready_l)

nothing-Keeps : (s : Dispatch) (actor : ℕ) → Keeps s [] s actor
nothing-Keeps s actor = (sym (append-nil (s.fire_lists actor)), omega arith)

fire_selected-Keeps :
    (block : ℕ) (out : Option (Ready × List Ready)) (s : Dispatch) (actor : ℕ)
    → Shorter s.sched.ready_l out
    → let r = fire_selected block out s in Keeps s r.0 r.1 actor
unfolding fire_selected actor_fire add_firelist
fire_selected-Keeps block none s actor e = nothing-Keeps s actor
fire_selected-Keeps block (some (ready, left)) s actor e =
    elim (Bool-cases (ready.actor_addr == actor)) [
      | inl here ↦
          let same : ready.actor_addr ≡ actor = ground arith in rw (here, same) (refl, omega arith)
      | inr other ↦ rw other (sym (append-nil (s.fire_lists actor)), omega arith)
    ]

check_round-Keeps : (s : Dispatch) (actor : ℕ) → let r = check_round s in Keeps s r.0 r.1 actor
unfolding check_round
check_round-Keeps s actor =
    elim (Bool-cases (leb 1 (queue_size s.pool.block_q) && is_ready s.sched.ready_l)) [
      | inl fires ↦
          let q = get_queue s.pool.block_q in
          rw fires (
            fire_selected-Keeps q.0 (ready_select (s.pool.blocks q.0) s.sched.ready_l)
              (record s { pool = record s.pool { block_q = q.1 } }) actor
              (ready_select-Shorter (s.pool.blocks q.0) s.sched.ready_l))
      | inr waits ↦ rw waits (nothing-Keeps s actor)
    ]

-- Over any number of rounds, the fire list of an actor grows at its end by the blocks that it is
-- fired on, in the order of the rounds, and the actors fired and those still ready are together as
-- many as were ready.
pub actor_check-Keeps :
    (rounds : ℕ) (s : Dispatch) (actor : ℕ) → let r = actor_check rounds s in Keeps s r.0 r.1 actor
unfolding actor_check
actor_check-Keeps zero s actor = nothing-Keeps s actor
actor_check-Keeps (suc rounds) s actor =
    let (fired, s1) = check_round s in
    let here = check_round-Keeps s actor in
    let later = actor_check-Keeps rounds (check_round s).1 actor in
    (
      later.0
          ∙ ap (λ bs. bs ++ blocks_of actor (actor_check rounds (check_round s).1).0) here.0
          ∙ append_assoc (s.fire_lists actor) (blocks_of actor (check_round s).0)
              (blocks_of actor (actor_check rounds (check_round s).1).0)
          ∙ ap (λ bs. s.fire_lists actor ++ bs)
              (sym (
                blocks_of-append actor (check_round s).0 (actor_check rounds (check_round s).1).0)),
      omega (
        arith,
        here.1,
        later.1,
        length-append (check_round s).0 (actor_check rounds (check_round s).1).0,
      ),
    )
