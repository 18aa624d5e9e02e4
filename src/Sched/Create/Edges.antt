-- ===== src/Sched/Create/Edges.antt =====
-- What `edge_make` adds to the graph.
use venus_scheduler.Prelude.{
  ℕ, zero, suc, ◌<◌, ◌≡◌, refl, true, some, List, [], ◌∷◌, ◌++◌, arith, ◌==◌, ltb, update, all, not,
  Bool, get_elem?, set, Bool-cases, ==_refl, inl, inr, ap, ◌∙◌,
}
use venus_scheduler.Fifo.{null}
use venus_scheduler.Sched.State.{Actor, Sched, max_res}
use venus_scheduler.Sched.Create.{nulls, node_make_in, node_make_out, edge_make}

get_elem?-set {ℓ} :
    {A : Type ℓ} (l : List A) (i : ℕ) (old v : A)
    → get_elem? l i ≡ some old
    → get_elem? (set l i v) i ≡ some v
get_elem?-set [] i old v e = absurd (ground arith)
get_elem?-set (x ∷ xs) zero old v e = refl
get_elem?-set (x ∷ xs) (suc i) old v e = get_elem?-set xs i old v e

abbrev pub is_used : ℕ → Bool
is_used x = not (x == null)

-- The fifo goes behind those of a row that has a free slot.
node_make_out_lem :
    (used : List ℕ) (n fifo : ℕ)
    → all is_used used ≡ true
    → node_make_out (used ++ nulls (suc n)) fifo ≡ used ++ (fifo ∷ nulls n)
unfolding node_make_out nulls
node_make_out_lem [] n fifo in_use = refl
node_make_out_lem (x ∷ xs) n fifo in_use = elim (Bool-cases (x == null)) [
  | inl e ↦ absurd (ground arith)
  | inr e ↦ rw e (ap (λ t. x ∷ t) (node_make_out_lem xs n fifo (ground arith)))
]

node_make_in_lem :
    (slots : List ℕ) (fifo i : ℕ)
    → get_elem? slots i ≡ some null
    → node_make_in slots fifo i ≡ some (set slots i fifo)
unfolding node_make_in
node_make_in_lem slots fifo i unused = rw (unused, node_make_in) refl

-- The actors once the fifo is an output of `src`, and the state that `edge_make` returns.
module _ (fifo src dep_index snk snk_index : ℕ) (s : Sched) (r : List ℕ) where
  abbrev linked_out : ℕ → Actor
  linked_out = update s.actors src (record (s.actors src) {
    outputs = set (s.actors src).outputs dep_index (node_make_out r fifo);
  })

  abbrev linked : Sched
  linked = record s {
    actors =
        update linked_out snk
          (record (linked_out snk) { inputs = set (linked_out snk).inputs snk_index fifo });
  }

  same_inputs : (linked_out snk).inputs ≡ (s.actors snk).inputs
  same_inputs = ground arith

  same_outputs : (linked.actors src).outputs ≡ (linked_out src).outputs
  same_outputs = ground arith

  made_in :
      get_elem? (s.actors snk).inputs snk_index ≡ some null
      → node_make_in (linked_out snk).inputs fifo snk_index
        ≡ some (set (linked_out snk).inputs snk_index fifo)
  made_in unused =
      node_make_in_lem (linked_out snk).inputs fifo snk_index
        (ap (λ l. get_elem? l snk_index) same_inputs ∙ unused)

  edge_make-eq :
      dep_index < max_res
      → get_elem? (s.actors src).outputs dep_index ≡ some r
      → get_elem? (s.actors snk).inputs snk_index ≡ some null
      → edge_make fifo src dep_index snk snk_index s ≡ some linked
  unfolding edge_make
  edge_make-eq lt out unused =
      let in_range : ltb dep_index max_res ≡ true = ground arith in
      rw (in_range, out, made_in unused) refl

-- With a result index in range, `used` among the successors of that result and a free slot behind
-- them, and a free input slot, `edge_make` puts the fifo behind those successors and into that input.
pub edge_make_lem :
    (fifo src dep_index snk snk_index n : ℕ) (s : Sched) (used : List ℕ)
    → dep_index < max_res
    → all is_used used ≡ true
    → get_elem? (s.actors src).outputs dep_index ≡ some (used ++ nulls (suc n))
    → get_elem? (s.actors snk).inputs snk_index ≡ some null
    → (s' : Sched) × (edge_make fifo src dep_index snk snk_index s ≡ some s')
      × (get_elem? (s'.actors src).outputs dep_index ≡ some (used ++ (fifo ∷ nulls n)))
      × (get_elem? (s'.actors snk).inputs snk_index ≡ some fifo)
edge_make_lem fifo src dep_index snk snk_index n s used lt in_use out unused =
    let r = used ++ nulls (suc n) in
    (
      linked fifo src dep_index snk snk_index s r,
      edge_make-eq fifo src dep_index snk snk_index s r lt out unused,
      ap (λ o. get_elem? o dep_index) (same_outputs fifo src dep_index snk snk_index s r)
          ∙ rw (==_refl src) (
              get_elem?-set (s.actors src).outputs dep_index r (node_make_out r fifo) out
              ∙ ap some (node_make_out_lem used n fifo in_use)),
      rw (==_refl snk) (
          get_elem?-set (linked_out fifo src dep_index snk snk_index s r snk).inputs snk_index null
            fifo
            (ap (λ l. get_elem? l snk_index) (same_inputs fifo src dep_index snk snk_index s r)
              ∙ unused)),
    )
