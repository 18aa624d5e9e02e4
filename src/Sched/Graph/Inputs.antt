-- ===== src/Sched/Graph/Inputs.antt =====
-- What the wiring of a graph means for the loops over the inputs and the outputs of an actor.
use venus_scheduler.Prelude.{
  ℕ, ◌≡◌, ◌≢◌, refl, ap, ◌∙◌, arith, Bool, true, false, ◌||◌, Bool-cases, inl, inr, List, [], ◌∷◌,
  ◌==◌, has, any, some, Distinct,
}
use venus_scheduler.Fifo.{null}
use venus_scheduler.Sched.State.{Sched, row, rows}
use venus_scheduler.Sched.Fire.{ins, outs}
use venus_scheduler.Sched.Fire.Search.{member}
use venus_scheduler.Sched.Fire.Take.{DistinctInputs}
use venus_scheduler.Sched.Graph.{GraphCall, depict}
use venus_scheduler.Sched.Graph.Slots.{NoTwice, held}
use venus_scheduler.Sched.Graph.Wiring.{IsWired, Lacks}
use venus_scheduler.Sched.Graph.Depict.{AllProper, fifos_of, depict-IsWired}

member-row : (xs : List ℕ) (g : ℕ) → has g xs ≡ false → member g (row xs) ≡ false
member-row [] g o = refl
member-row (x ∷ xs) g o = ground (arith, member-row xs g)

row-member : (xs : List ℕ) (g : ℕ) → member g (row xs) ≡ true → (has g xs ≡ true) × (g ≢ null)
row-member [] g i = absurd (ground arith)
row-member (x ∷ xs) g i = elim (Bool-cases (x == null)) [
  | inl e ↦ absurd (ground (arith, rw e at i))
  | inr e ↦ elim (Bool-cases (g == x)) [
    | inl here ↦ (ground arith, ground arith)
    | inr there ↦
        let (inside, nz) = row-member xs g (ground (arith, rw e at i)) in (ground arith, nz)
  ]
]

neither : (p q : Bool) → p ≡ false → q ≡ false → (p || q) ≡ false
neither p q no_p no_q = ground arith

held-rows : (rs : List (List ℕ)) (g : ℕ) → held g rs ≡ false → any (member g) (rows rs) ≡ false
held-rows [] g o = refl
held-rows ([] ∷ rs) g o = refl
held-rows ((x ∷ xs) ∷ rs) g o = elim (Bool-cases (x == null)) [
  | inl e ↦ rw e refl
  | inr e ↦
      let first : member g (row (x ∷ xs)) ≡ false = member-row (x ∷ xs) g (ground arith) in
      let rest = held-rows rs g (ground arith) in
      let opened : rows ((x ∷ xs) ∷ rs) ≡ row (x ∷ xs) ∷ rows rs = rw e refl in
      ap (any (member g)) opened
      ∙ neither (member g (row (x ∷ xs))) (any (member g) (rows rs)) first rest
]

NoTwice-row : (xs : List ℕ) → NoTwice xs → DistinctInputs (row xs)
NoTwice-row [] w = tt
NoTwice-row (x ∷ xs) (here, w) = elim (Bool-cases (x == null)) [
  | inl e ↦ rw e tt
  | inr e ↦ rw e (member-row xs x (ground (arith, rw e at here)), NoTwice-row xs w)
]

-- On a graph whose actors have no fifo in two inputs, or in an input and an output, calls that each
-- take a new fifo of their own, with edges between different actors, keep it so: the inputs of an
-- actor are distinct, and none of them is an output of the actor.
pub depict-DistinctInputs :
    (cs : List GraphCall) (s s' : Sched) (a : ℕ)
    → AllProper cs
    → Distinct (fifos_of cs)
    → ((b : ℕ) → IsWired (s.actors b))
    → ((f b : ℕ) → has f (fifos_of cs) ≡ true → Lacks f (s.actors b))
    → depict cs s ≡ some s'
    → DistinctInputs (ins s' a)
      × ((g : ℕ) → member g (ins s' a) ≡ true → any (member g) (outs s' a) ≡ false)
depict-DistinctInputs cs s s' a proper own wired lacks e =
    let w = depict-IsWired cs s s' proper own wired lacks e a in
    (
      NoTwice-row (s'.actors a).inputs w.once,
      λ g i.
          let (inside, nz) = row-member (s'.actors a).inputs g i in
          held-rows (s'.actors a).outputs g (w.apart g nz inside),
    )
