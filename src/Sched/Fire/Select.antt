-- ===== src/Sched/Fire/Select.antt =====
-- Which ready actor `ready_select` picks.
use venus_scheduler.Prelude.{
  ℕ, ◌≡◌, refl, Bool, true, not, Option, none, some, List, [], ◌∷◌, ◌++◌, arith, ◌==◌,
  if◌then◌else◌, all, Bool-cases, inl, inr, ◌⊎◌, ap,
}
use venus_scheduler.Sched.State.{Ready, Block}
use venus_scheduler.Sched.Fire.{select_affine, split_last, ready_select}

abbrev pub ran_other : ℕ → Ready → Bool
ran_other last_actor r = not (r.actor_addr == last_actor)

-- `r` leaves the list between `front` and `back`.
pub record Picked (l : List Ready) (r : Ready) (left : List Ready) : Type 0 where
  pub front : List Ready
  pub back : List Ready
  pub whole : l ≡ front ++ (r ∷ back)
  pub rest : left ≡ front ++ back

abbrev pub Affine : ℕ → List Ready → Option (Ready × List Ready) → Type 0
Affine last_actor l none = all (ran_other last_actor) l ≡ true
Affine last_actor l (some (r, left)) =
    (p : Picked l r left) × (r.actor_addr ≡ last_actor) × (all (ran_other last_actor) p.back ≡ true)

select_affine-Affine :
    (last_actor : ℕ) (l : List Ready) → Affine last_actor l (select_affine last_actor l)
unfolding select_affine
select_affine-Affine last_actor [] = refl
select_affine-Affine last_actor (r ∷ rs) =
    step (select_affine last_actor rs) (select_affine-Affine last_actor rs)
  where
    step :
        (out : Option (Ready × List Ready))
        → Affine last_actor rs out
        → Affine last_actor (r ∷ rs) (elim out [
          | none ↦ if r.actor_addr == last_actor then some (r, rs) else none
          | some (q, qs) ↦ some (q, r ∷ qs)
        ])
    step none no_other = elim (Bool-cases (r.actor_addr == last_actor)) [
      | inl e ↦
          rw e (record { front = []; back = rs; whole = refl; rest = refl }, ground arith, no_other)
      | inr ne ↦ rw ne (ground arith)
    ]
    step (some (q, qs)) (p, e, younger) = (
      record {
        front = r ∷ p.front;
        back = p.back;
        whole = ap (λ t. r ∷ t) p.whole;
        rest = ap (λ t. r ∷ t) p.rest;
      },
      e,
      younger,
    )

abbrev pub Last : List Ready → Option (Ready × List Ready) → Type 0
Last l none = l ≡ []
Last l (some (r, left)) = l ≡ left ++ (r ∷ [])

split_last-Last : (l : List Ready) → Last l (split_last l)
unfolding split_last
split_last-Last [] = refl
split_last-Last (r ∷ rs) = step (split_last rs) (split_last-Last rs)
  where
    step :
        (out : Option (Ready × List Ready))
        → Last rs out
        → Last (r ∷ rs) (elim out [ none ↦ some (r, []) | some (q, qs) ↦ some (q, r ∷ qs) ])
    step none e = ap (λ t. r ∷ t) e
    step (some (q, qs)) e = ap (λ t. r ∷ t) e

-- What a selection from the ready list is: of the actors that the block ran last, the one that
-- has waited longest; if there is none, the actor that has waited longest; nothing from an empty
-- list. The others keep their order.
abbrev pub Selection : ℕ → List Ready → Option (Ready × List Ready) → Type 0
Selection last_actor l none = l ≡ []
Selection last_actor l (some (r, left)) =
    ((p : Picked l r left) × (r.actor_addr ≡ last_actor)
      × (all (ran_other last_actor) p.back ≡ true))
    ⊎ ((all (ran_other last_actor) l ≡ true) × (l ≡ left ++ (r ∷ [])))

-- `ready_select` picks, of the actors that the block ran last, the one that has waited longest, and
-- if there is none the actor that has waited longest; it picks nothing only from an empty list, and
-- leaves the other actors in their order.
pub ready_select-Selection :
    (block : Block) (l : List Ready) → Selection block.actor l (ready_select block l)
unfolding ready_select
ready_select-Selection block l =
    choose (select_affine block.actor l) (select_affine-Affine block.actor l) (split_last l)
      (split_last-Last l)
  where
    choose :
        (found : Option (Ready × List Ready))
        → Affine block.actor l found
        → (last : Option (Ready × List Ready)) → Last l last
        → Selection block.actor l (elim found [ none ↦ last | some f ↦ some f ])
    choose none no_other none e = e
    choose none no_other (some (r, left)) e = inr (no_other, e)
    choose (some (r, left)) a last e = inl a
