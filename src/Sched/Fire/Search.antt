-- ===== src/Sched/Fire/Search.antt =====
-- The rounds of the loop in `ready_search` of src/fire_check.c that makes an actor ready.
use venus_scheduler.Prelude.{
  ℕ, zero, suc, ◌+◌, ◌<◌, ◌≡◌, refl, Bool, true, false, none, some, List, [], ◌∷◌, arith, ◌==◌,
  if◌then◌else◌, update, Bool-cases, inl, inr, ◌∙◌, ap, any, sym,
}
use mathlib.Core.Path.{subst}
use venus_scheduler.Fifo.{Fifo, null, get_token, put_token, fifo_empty, read_token}
use venus_scheduler.Fifo.Contents.{
  IsValid, occupancy, head_or, occupancy-get_token, get_token-IsValid,
}
use venus_scheduler.Sched.State.{Actor, Sched, pseudo_token, row, rows}
use venus_scheduler.Sched.Fire.{
  ins, outs, Taken, take_token, take_tokens, drop_tokens, ready_create, ready_insert, put_row,
  pass_pseudo, fire_round, fire_loop, fire_check, ready_inputs, actor_ready,
}

abbrev pub member : ℕ → List ℕ → Bool
member a xs = any (λ x. a == x) xs

-- A fifo that a loop does not visit is left alone.
drop_tokens-other :
    (fs : List ℕ) (fifos : ℕ → Fifo) (g : ℕ)
    → member g fs ≡ false
    → drop_tokens fifos fs g ≡ fifos g
unfolding drop_tokens
drop_tokens-other [] fifos g out = refl
drop_tokens-other (f ∷ fs) fifos g out =
    drop_tokens-other fs (update fifos f (get_token (fifos f)).1) g (ground arith) ∙ ground arith

pub take_tokens-other :
    (fs : List ℕ) (i : ℕ) (k : Taken) (g : ℕ)
    → member g fs ≡ false
    → (take_tokens i fs k).fifos g ≡ k.fifos g
unfolding take_tokens take_token
take_tokens-other [] i k g out = refl
take_tokens-other (f ∷ fs) i k g out =
    take_tokens-other fs (i + 1) (take_token i f k) g (ground arith) ∙ ground arith

put_row-other :
    (fs : List ℕ) (fifos : ℕ → Fifo) (g : ℕ) → member g fs ≡ false → put_row fifos fs g ≡ fifos g
unfolding put_row
put_row-other [] fifos g out = refl
put_row-other (f ∷ fs) fifos g out =
    put_row-other fs (update fifos f (put_token (fifos f) pseudo_token)) g (ground arith)
    ∙ ground arith

pass_pseudo-other :
    (rs : List (List ℕ)) (fifos : ℕ → Fifo) (g : ℕ)
    → any (member g) rs ≡ false
    → pass_pseudo fifos rs g ≡ fifos g
unfolding pass_pseudo
pass_pseudo-other [] fifos g out = refl
pass_pseudo-other (r ∷ rs) fifos g out =
    pass_pseudo-other rs (put_row fifos r) g (ground arith) ∙ put_row-other r fifos g (ground arith)

-- What a ready actor took from its inputs.
abbrev pub taken_of : Sched → ℕ → Taken
taken_of s a =
    take_tokens 0 (ins s a) (record { fifos = s.fifos; tokens = s.tokens; dep_list = [] })

abbrev pub is_pseudo : Sched → ℕ → Bool
is_pseudo s a = read_token (s.fifos (head_or null (ins s a))) == pseudo_token

-- A round of a pseudo task drops its tokens and passes pseudo tokens on; any other round puts the
-- actor with its dependencies at the head of the ready list.
pub fire_round_lem :
    (s : Sched) (a : ℕ)
    → fire_round s a ≡ (
        if is_pseudo s a
        then record s { fifos = pass_pseudo (drop_tokens s.fifos (ins s a)) (outs s a) }
        else record s {
          fifos = (taken_of s a).fifos;
          tokens = (taken_of s a).tokens;
          ready_l = record { actor_addr = a; dep_list = (taken_of s a).dep_list } ∷ s.ready_l;
        })
unfolding fire_round ready_insert
fire_round_lem s a = elim (Bool-cases (is_pseudo s a)) [
  | inl pseudo ↦ rw (pseudo, fire_round, pseudo_eq pseudo) refl
  | inr real ↦ rw (real, fire_round, real_eq real) refl
]
  where
    pseudo_eq :
        is_pseudo s a ≡ true
        → ready_create s a ≡ (none, record s { fifos = drop_tokens s.fifos (ins s a) })
    pseudo_eq e = unfold ready_create in rw e

    real_eq :
        is_pseudo s a ≡ false
        → ready_create s a ≡ (
          some (record { actor_addr = a; dep_list = (taken_of s a).dep_list }),
          record s { fifos = (taken_of s a).fifos; tokens = (taken_of s a).tokens },
        )
    real_eq e = unfold ready_create in rw e

actors-fire_round : (s : Sched) (a : ℕ) → (fire_round s a).actors ≡ s.actors
actors-fire_round s a = rw fire_round_lem (ground arith)

module _ (s : Sched) (a f : ℕ) (fs : List ℕ) (first : ins s a ≡ f ∷ fs)
    (alone : member f fs ≡ false) (apart : any (member f) (outs s a) ≡ false) where
  -- One round takes one token from the first input.
  fire_round-first : (fire_round s a).fifos f ≡ (get_token (s.fifos f)).1
  fire_round-first = rw fire_round_lem (elim (Bool-cases (is_pseudo s a)) [
    | inl pseudo ↦
        rw pseudo
          (pass_pseudo-other (outs s a) (drop_tokens s.fifos (ins s a)) f apart ∙ rw first dropped)
    | inr real ↦ rw (real, first) taken
  ])
    where
      dropped : drop_tokens s.fifos (f ∷ fs) f ≡ (get_token (s.fifos f)).1
      dropped =
          unfold drop_tokens in
          drop_tokens-other fs (update s.fifos f (get_token (s.fifos f)).1) f alone ∙ ground arith

      taken :
          (take_tokens 0
              (f ∷ fs)
              (record { fifos = s.fifos; tokens = s.tokens; dep_list = [] })).fifos
            f
          ≡ (get_token (s.fifos f)).1
      taken =
          unfold take_tokens in
          take_tokens-other fs (0 + 1)
            (take_token 0 f (record { fifos = s.fifos; tokens = s.tokens; dep_list = [] })) f alone
          ∙ unfold take_token in ground arith

  -- An actor that fires has a token in its first input.
  first_nonempty : fire_check s a ≡ true → fifo_empty (s.fifos f) ≡ false
  unfolding fire_check actor_ready
  first_nonempty fires = elim (Bool-cases (fifo_empty (s.fifos f))) [
    | inl empty ↦ absurd (ground (arith, blocked empty))
    | inr some_left ↦ some_left
  ]
    where
      blocked : fifo_empty (s.fifos f) ≡ true → ready_inputs s.fifos (ins s a) ≡ false
      blocked empty = rw first (unfold ready_inputs in rw empty refl)

-- The loop on an actor ends, with fuel above the number of tokens in its first input, if that
-- fifo is valid and is neither another input nor an output of the actor; then the actor no longer
-- passes the fire rules.
pub fire_loop_total :
    (fuel : ℕ) (s : Sched) (a f : ℕ) (fs : List ℕ)
    → ins s a ≡ f ∷ fs
    → member f fs ≡ false
    → any (member f) (outs s a) ≡ false
    → IsValid (s.fifos f)
    → occupancy (s.fifos f) < fuel
    → (s' : Sched) × (fire_loop fuel a s ≡ some s') × (fire_check s' a ≡ false)
unfolding fire_loop
fire_loop_total zero s a f fs first alone apart v lt = absurd (omega arith)
fire_loop_total (suc fuel) s a f fs first alone apart v lt = elim (Bool-cases (fire_check s a)) [
  | inl fires ↦
      let step = fire_round-first s a f fs first alone apart in
      let less = occupancy-get_token v (first_nonempty s a f fs first alone apart fires) in
      rw fires (
        fire_loop_total fuel (fire_round s a) a f fs
          (ap (λ (t : ℕ → Actor). row (t a).inputs) (actors-fire_round s a) ∙ first) alone
          (ap (λ (t : ℕ → Actor). any (member f) (rows (t a).outputs)) (actors-fire_round s a)
            ∙ apart)
          (subst IsValid (sym step) (get_token-IsValid v)) (omega (arith, less, ap occupancy step)))
  | inr stops ↦ rw stops (s, refl, stops)
]
