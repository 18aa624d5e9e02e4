-- ===== src/Sched/Graph/Depict.antt =====
-- Sequences of the calls that build a graph: how they wire the actors.
use mathlib.Core.Path.{subst}
use mathlib.Core.Option.{some-injective}
use venus_scheduler.Prelude.{
  ℕ, ◌≡◌, ◌≢◌, refl, sym, ap, ◌∙◌, arith, true, false, Bool-cases, Option-cases, inl, inr, List, [],
  ◌∷◌, ◌==◌, ltb, if◌then◌else◌, has, get_elem?, set, some, update, Distinct,
}
use venus_scheduler.Fifo.{null}
use venus_scheduler.Sched.State.{Actor, Sched, max_res}
use venus_scheduler.Sched.Create.{
  node_make_in, actor_create, edge_make, assign_root, assign_sink, assign_dynamic,
}
use venus_scheduler.Sched.Graph.{GraphCall, create, edge, root, sink, dynamic, make, depict}
use venus_scheduler.Sched.Graph.Wiring.{
  IsWired, Lacks, with_input, with_output, Change, same, input, output, output_first, marked,
  created, Change-IsWired, Change-Lacks,
}

-- The fifo of a call, NULL for a call that takes none.
abbrev pub fifo_of : GraphCall → ℕ
fifo_of (create actor start len) = null
fifo_of (edge f src d snk i) = f
fifo_of (root f actor) = f
fifo_of (sink f actor) = f
fifo_of (dynamic actor) = null

-- The fifo is one, and an edge leads to another actor.
abbrev pub IsProper : GraphCall → Type 0
IsProper (create actor start len) = Unit
IsProper (edge f src d snk i) = (f ≢ null) × (src ≢ snk)
IsProper (root f actor) = f ≢ null
IsProper (sink f actor) = f ≢ null
IsProper (dynamic actor) = Unit

node_make_in-some : (xs ys : List ℕ) (f i : ℕ) → node_make_in xs f i ≡ some ys → ys ≡ set xs i f
unfolding node_make_in
node_make_in-some xs ys f i e = elim (Option-cases (get_elem? xs i)) [
  | inl out ↦ absurd (ground (arith, rw (node_make_in, out) at e))
  | inr (old, at) ↦ elim (Bool-cases (old == null)) [
    | inl free ↦ sym (some-injective (set xs i f) ys (rw (node_make_in, at, free) at e))
    | inr used ↦ absurd (ground (arith, rw (node_make_in, at, used) at e))
  ]
]

-- An update at `p` with a changed actor changes the actor at `p`.
update-Change :
    (f p a : ℕ) (actors : ℕ → Actor) (y : Actor)
    → Change f (actors p) y
    → Change f (actors a) (update actors p y a)
update-Change f p a actors y c = elim (Bool-cases (p == a)) [
  | inl e ↦ let here : p ≡ a = ground arith in rw e (subst (λ q. Change f (actors q) y) here c)
  | inr e ↦ rw e same
]

edge-Change :
    (f src d snk i a : ℕ) (s : Sched) (r : List ℕ)
    → f ≢ null
    → src ≢ snk
    → get_elem? (s.actors src).outputs d ≡ some r
    → Change f (s.actors a) (
        update
          (update s.actors src (with_output d r f (s.actors src)))
          snk
          (with_input i f (s.actors snk))
          a)
edge-Change f src d snk i a s r nz ne at = elim (Bool-cases (snk == a)) [
  | inl e ↦
      let here : snk ≡ a = ground arith in
      rw e (subst (λ q. Change f (s.actors q) (with_input i f (s.actors snk))) here (input i nz))
  | inr e ↦
      rw e (update-Change f src a s.actors (with_output d r f (s.actors src)) (output d r at nz))
]

pub make-edge :
    (f src d snk i : ℕ) (s s' : Sched)
    → edge_make f src d snk i s ≡ some s'
    → src ≢ snk
    → (r : List ℕ) × (get_elem? (s.actors src).outputs d ≡ some r)
      × (s' ≡ record s {
        actors =
            update
              (update s.actors src (with_output d r f (s.actors src)))
              snk
              (with_input i f (s.actors snk));
      })
unfolding edge_make
make-edge f src d snk i s s' e ne = elim (Bool-cases (ltb d max_res)) [
  | inr out ↦ absurd (ground (arith, rw out at e))
  | inl in_range ↦ elim (Option-cases (get_elem? (s.actors src).outputs d)) [
    | inl out ↦ absurd (ground (arith, rw (in_range, out) at e))
    | inr (r, at) ↦
        let others : (src == snk) ≡ false = ground arith in
        let src_out : ℕ → Actor = update s.actors src (with_output d r f (s.actors src)) in
        let untouched : src_out snk ≡ s.actors snk = rw others refl in
        let made : Actor → List ℕ → Sched =
          λ y zs. record s { actors = update src_out snk (record y { inputs = zs }) } in
        elim (Option-cases (node_make_in (src_out snk).inputs f i)) [
          | inl used ↦ absurd (ground (arith, rw (in_range, at, used) at e))
          | inr (ys, put) ↦
              let result =
                some-injective (made (src_out snk) ys) s' (rw (in_range, at, put) at e) in
              (
                r,
                at,
                sym result
                    ∙ ap (made (src_out snk)) (node_make_in-some (src_out snk).inputs ys f i put)
                    ∙ ap (λ y. made y (set y.inputs i f)) untouched,
              )
        ]
  ]
]

make-Change :
    (c : GraphCall) (s s' : Sched) (a : ℕ)
    → IsProper c
    → make c s ≡ some s'
    → Change (fifo_of c) (s.actors a) (s'.actors a)
unfolding make actor_create assign_root assign_sink assign_dynamic
make-Change (create actor start len) s s' a proper e =
    rw (← some-injective (actor_create actor start len s) s' e)
      (update-Change null actor a s.actors _ (created start len))
make-Change (edge f src d snk i) s s' a (nz, ne) e =
    let (r, at, result) = make-edge f src d snk i s s' e ne in
    rw result (edge-Change f src d snk i a s r nz ne at)
make-Change (root f actor) s s' a nz e =
    rw (← some-injective (assign_root f actor s) s' e)
      (update-Change f actor a s.actors (with_input 0 f (s.actors actor)) (input 0 nz))
make-Change (sink f actor) s s' a nz e =
    rw (← some-injective (assign_sink f actor s) s' e)
      (update-Change f actor a s.actors _ (output_first nz))
make-Change (dynamic actor) s s' a proper e =
    rw (← some-injective (assign_dynamic actor s) s' e)
      (update-Change null actor a s.actors _ marked)

-- The fifos of some calls.
abbrev pub fifos_of : List GraphCall → List ℕ
fifos_of [] = []
fifos_of (c ∷ cs) = if fifo_of c == null then fifos_of cs else fifo_of c ∷ fifos_of cs

abbrev pub AllProper : List GraphCall → Type 0
AllProper [] = Unit
AllProper (c ∷ cs) = IsProper c × AllProper cs

not-has-null : (cs : List GraphCall) → has null (fifos_of cs) ≡ false
not-has-null [] = refl
not-has-null (c ∷ cs) = ground (arith, not-has-null cs)

-- Calls that each take a fifo of their own, which no actor had, leave every actor wired.
pub depict-IsWired :
    (cs : List GraphCall) (s s' : Sched)
    → AllProper cs
    → Distinct (fifos_of cs)
    → ((a : ℕ) → IsWired (s.actors a))
    → ((f a : ℕ) → has f (fifos_of cs) ≡ true → Lacks f (s.actors a))
    → depict cs s ≡ some s'
    → (a : ℕ) → IsWired (s'.actors a)
unfolding depict
depict-IsWired [] s s' proper own wired lacks e a = rw (← some-injective s s' e) (wired a)
depict-IsWired (c ∷ cs) s s' (p, proper) own wired lacks e a = elim (Option-cases (make c s)) [
  | inl fails ↦ absurd (ground (arith, rw fails at e))
  | inr (t, made) ↦
      depict-IsWired cs t s' proper later_own
        (λ b.
          Change-IsWired (fifo_of c) (s.actors b) (t.actors b) (make-Change c s t b p made)
            (wired b) (λ nz. lacks (fifo_of c) b (ground (arith, nz))))
        (λ f b is_later.
          Change-Lacks (fifo_of c) f (s.actors b) (t.actors b) (make-Change c s t b p made)
            (differs f is_later) (no_null f is_later) (lacks f b (still f is_later)))
        (rw made at e) a
]
  where
    later_own : Distinct (fifos_of cs)
    later_own = elim (Bool-cases (fifo_of c == null)) [
      | inl no_fifo ↦ rw no_fifo at own
      | inr has_fifo ↦ (rw has_fifo at own).1
    ]

    still : (f : ℕ) → has f (fifos_of cs) ≡ true → has f (fifos_of (c ∷ cs)) ≡ true
    still f is_later = ground arith

    no_null : (f : ℕ) → has f (fifos_of cs) ≡ true → f ≢ null
    no_null f is_later = ground (arith, not-has-null cs)

    differs : (f : ℕ) → has f (fifos_of cs) ≡ true → f ≢ fifo_of c
    differs f is_later = elim (Bool-cases (fifo_of c == null)) [
      | inl no_fifo ↦ ground (arith, no_null f is_later)
      | inr has_fifo ↦ ground (arith, (rw has_fifo at own).0)
    ]
