-- ===== src/Sched/Start/Created.antt =====
-- The order of the actors in `actor_l`.
use mathlib.Core.Option.{some-injective}
use mathlib.Core.List.{append-nil, reverse, reverse_aux}
use venus_scheduler.Prelude.{
  ℕ, ◌≡◌, refl, sym, ap, ◌∙◌, arith, List, [], ◌∷◌, ◌++◌, some, Option-cases, inl, inr,
}
use venus_scheduler.Sched.State.{Sched}
use venus_scheduler.Sched.Create.{actor_create, assign_root, assign_sink, assign_dynamic}
use venus_scheduler.Sched.Graph.{GraphCall, create, edge, root, sink, dynamic, make, depict}
use venus_scheduler.Sched.Graph.Depict.{IsProper, AllProper, make-edge}
use venus_scheduler.Sched.Start.{list_init, last_item}

-- The actors that some calls create, in order.
abbrev pub created_by : List GraphCall → List ℕ
created_by [] = []
created_by (create actor start len ∷ cs) = actor ∷ created_by cs
created_by (edge f src d snk i ∷ cs) = created_by cs
created_by (root f actor ∷ cs) = created_by cs
created_by (sink f actor ∷ cs) = created_by cs
created_by (dynamic actor ∷ cs) = created_by cs

make-actor_l :
    (c : GraphCall) (cs : List GraphCall) (s s' : Sched)
    → IsProper c
    → make c s ≡ some s'
    → reverse_aux (created_by cs) s'.actor_l ≡ reverse_aux (created_by (c ∷ cs)) s.actor_l
unfolding make actor_create assign_root assign_sink assign_dynamic
make-actor_l (create actor start len) cs s s' p e =
    rw (← some-injective (actor_create actor start len s) s' e) refl
make-actor_l (edge f src d snk i) cs s s' (nz, ne) e =
    let (r, at, result) = make-edge f src d snk i s s' e ne in rw result refl
make-actor_l (root f actor) cs s s' p e = rw (← some-injective (assign_root f actor s) s' e) refl
make-actor_l (sink f actor) cs s s' p e = rw (← some-injective (assign_sink f actor s) s' e) refl
make-actor_l (dynamic actor) cs s s' p e = rw (← some-injective (assign_dynamic actor s) s' e) refl

-- Each actor that is created goes to the head of the list.
pub depict-actor_l :
    (cs : List GraphCall) (s s' : Sched)
    → AllProper cs
    → depict cs s ≡ some s'
    → s'.actor_l ≡ reverse_aux (created_by cs) s.actor_l
unfolding depict
depict-actor_l [] s s' p e = ap (λ t. t.actor_l) (sym (some-injective s s' e))
depict-actor_l (c ∷ cs) s s' (p, ps) e = elim (Option-cases (make c s)) [
  | inl fails ↦ absurd (ground (arith, rw fails at e))
  | inr (t, made) ↦ depict-actor_l cs t s' ps (rw made at e) ∙ make-actor_l c cs s t p made
]

reverse_aux-reverse_aux :
    (xs ys zs : List ℕ) → reverse_aux (reverse_aux xs ys) zs ≡ reverse_aux ys (xs ++ zs)
reverse_aux-reverse_aux [] ys zs = refl
reverse_aux-reverse_aux (x ∷ xs) ys zs = reverse_aux-reverse_aux xs (x ∷ ys) zs

last_item-reverse_aux :
    (xs : List ℕ) (y : ℕ) (ys : List ℕ) → last_item (reverse_aux xs (y ∷ ys)) ≡ last_item (y ∷ ys)
unfolding last_item
last_item-reverse_aux [] y ys = refl
last_item-reverse_aux (x ∷ xs) y ys = last_item-reverse_aux xs x (y ∷ ys)

-- After `list_init` and the calls of a graph, `ready_search` goes through the actors in the order in
-- which they were created, and the packets go to the first of them.
pub depict-created_by :
    (cs : List GraphCall) (s s' : Sched) (a : ℕ) (as_ : List ℕ)
    → AllProper cs
    → depict cs (list_init s) ≡ some s'
    → created_by cs ≡ a ∷ as_
    → (reverse s'.actor_l ≡ a ∷ as_) × (last_item s'.actor_l ≡ a)
unfolding list_init last_item
depict-created_by cs s s' a as_ p e created =
    let list : s'.actor_l ≡ reverse_aux (a ∷ as_) [] =
      rw created at (depict-actor_l cs (list_init s) s' p e) in
    (
      rw list (reverse_aux-reverse_aux (a ∷ as_) [] [] ∙ append-nil (a ∷ as_)),
      rw list (last_item-reverse_aux as_ a []),
    )
