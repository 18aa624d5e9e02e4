-- ===== src/Sched/Fire/Shorter.antt =====
-- A selection takes one actor off the ready list.
use venus_scheduler.Prelude.{
  ℕ, suc, ◌≡◌, refl, Option, none, some, List, [], ◌∷◌, ◌==◌, if◌then◌else◌, length, Bool-cases,
  inl, inr, ap,
}
use venus_scheduler.Sched.State.{Ready, Block}
use venus_scheduler.Sched.Fire.{select_affine, split_last, ready_select}

-- The list is one longer than what is left of it.
abbrev pub Shorter : List Ready → Option (Ready × List Ready) → Type 0
Shorter l none = Unit
Shorter l (some (r, left)) = length l ≡ suc (length left)

split_last-Shorter : (l : List Ready) → Shorter l (split_last l)
unfolding split_last
split_last-Shorter [] = tt
split_last-Shorter (r ∷ rs) = step (split_last rs) (split_last-Shorter rs) (empty rs)
  where
    Empty : List Ready → Option (Ready × List Ready) → Type 0
    Empty l none = length l ≡ 0
    Empty l (some p) = Unit

    empty : (l : List Ready) → Empty l (split_last l)
    empty [] = refl
    empty (q ∷ qs) = step_empty (split_last qs)
      where
        step_empty :
            (out : Option (Ready × List Ready))
            → Empty (q ∷ qs) (elim out [ none ↦ some (q, []) | some (p, ps) ↦ some (p, q ∷ ps) ])
        step_empty none = tt
        step_empty (some (p, ps)) = tt

    step :
        (out : Option (Ready × List Ready))
        → Shorter rs out
        → Empty rs out
        → Shorter (r ∷ rs) (elim out [ none ↦ some (r, []) | some (q, qs) ↦ some (q, r ∷ qs) ])
    step none e z = ap suc z
    step (some (q, qs)) e z = ap suc e

select_affine-Shorter : (last : ℕ) (l : List Ready) → Shorter l (select_affine last l)
unfolding select_affine
select_affine-Shorter last [] = tt
select_affine-Shorter last (r ∷ rs) = step (select_affine last rs) (select_affine-Shorter last rs)
  where
    step :
        (out : Option (Ready × List Ready))
        → Shorter rs out
        → Shorter (r ∷ rs) (elim out [
          | none ↦ if r.actor_addr == last then some (r, rs) else none
          | some (q, qs) ↦ some (q, r ∷ qs)
        ])
    step none e = elim (Bool-cases (r.actor_addr == last)) [
      | inl here ↦ rw here refl
      | inr other ↦ rw other tt
    ]
    step (some (q, qs)) e = ap suc e

pub ready_select-Shorter : (block : Block) (l : List Ready) → Shorter l (ready_select block l)
unfolding ready_select
ready_select-Shorter block l =
    step (select_affine block.actor l) (select_affine-Shorter block.actor l)
  where
    step :
        (out : Option (Ready × List Ready))
        → Shorter l out
        → Shorter l (elim out [ none ↦ split_last l | some found ↦ some found ])
    step none e = split_last-Shorter l
    step (some (q, qs)) e = e
