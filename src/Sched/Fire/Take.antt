-- ===== src/Sched/Fire/Take.antt =====
-- What `ready_create` takes out of the inputs of an actor.
use venus_scheduler.Prelude.{
  ℕ, ◌+◌, ◌≡◌, refl, true, false, List, [], ◌∷◌, arith, ◌==◌, if◌then◌else◌, update, ◌∙◌, ap,
  Bool-cases, inl, inr, ==_refl,
}
use mathlib.Core.List.{reverse_aux, tail}
use venus_scheduler.Fifo.{Fifo, null, get_token}
use venus_scheduler.Fifo.Contents.{IsValid, contents, head_or, get_token_lem}
use venus_scheduler.Sched.State.{pseudo_token}
use venus_scheduler.Sched.Fire.{Taken, take_token, take_tokens}
use venus_scheduler.Sched.Fire.Search.{member, take_tokens-other}

abbrev pub DistinctInputs : List ℕ → Type 0
DistinctInputs [] = Unit
DistinctInputs (f ∷ fs) = (member f fs ≡ false) × DistinctInputs fs

abbrev pub AllValid : (ℕ → Fifo) → List ℕ → Type 0
AllValid fifos [] = Unit
AllValid fifos (f ∷ fs) = IsValid (fifos f) × AllValid fifos fs

-- The oldest tokens of the inputs, those of pseudo tasks left out.
abbrev pub real_tokens : (ℕ → Fifo) → List ℕ → List ℕ
real_tokens fifos [] = []
real_tokens fifos (f ∷ fs) =
    if head_or null (contents (fifos f)) == pseudo_token
    then real_tokens fifos fs
    else head_or null (contents (fifos f)) ∷ real_tokens fifos fs

real_tokens-update :
    (fs : List ℕ) (fifos : ℕ → Fifo) (f : ℕ) (v : Fifo)
    → member f fs ≡ false
    → real_tokens (update fifos f v) fs ≡ real_tokens fifos fs
real_tokens-update [] fifos f v out = refl
real_tokens-update (g ∷ gs) fifos f v out =
    let same : update fifos f v g ≡ fifos g = ground arith in
    let rest = real_tokens-update gs fifos f v (ground arith) in rw (same, rest) refl

AllValid-update :
    (fs : List ℕ) (fifos : ℕ → Fifo) (f : ℕ) (v : Fifo)
    → member f fs ≡ false
    → AllValid fifos fs
    → AllValid (update fifos f v) fs
AllValid-update [] fifos f v out all = tt
AllValid-update (g ∷ gs) fifos f v out all =
    let same : update fifos f v g ≡ fifos g = ground arith in
    (rw same all.0, AllValid-update gs fifos f v (ground arith) all.1)

fifos-take_token :
    (i f : ℕ) (k : Taken) → (take_token i f k).fifos ≡ update k.fifos f (get_token (k.fifos f)).1
unfolding take_token
fifos-take_token i f k = ground arith

deps-take_token :
    (i f : ℕ) (k : Taken)
    → IsValid (k.fifos f)
    → (take_token i f k).dep_list ≡ (
        if head_or null (contents (k.fifos f)) == pseudo_token
        then k.dep_list
        else head_or null (contents (k.fifos f)) ∷ k.dep_list)
unfolding take_token
deps-take_token i f k v = ground (arith, (get_token_lem v).0)

-- If the inputs are distinct and valid, the oldest tokens of the inputs without the pseudo tokens
-- come before the dependencies so far, the last input's first.
pub dep_list-take_tokens :
    (fs : List ℕ) (i : ℕ) (k : Taken)
    → DistinctInputs fs
    → AllValid k.fifos fs
    → (take_tokens i fs k).dep_list ≡ reverse_aux (real_tokens k.fifos fs) k.dep_list
unfolding take_tokens
dep_list-take_tokens [] i k d all = refl
dep_list-take_tokens (f ∷ fs) i k d all =
    dep_list-take_tokens fs (i + 1) (take_token i f k) d.1
      (rw fifos-take_token (AllValid-update fs k.fifos f (get_token (k.fifos f)).1 d.0 all.1))
    ∙ rw
        (
          fifos-take_token,
          real_tokens-update fs k.fifos f (get_token (k.fifos f)).1 d.0,
          deps-take_token i f k all.0,
        )
        (elim (Bool-cases (head_or null (contents (k.fifos f)) == pseudo_token)) [
          | inl pseudo ↦ rw pseudo
          | inr real ↦ rw real
        ])

-- If the inputs are distinct and valid, every input loses its oldest token and keeps the others in
-- order, and no other fifo changes.
pub contents-take_tokens :
    (fs : List ℕ) (i : ℕ) (k : Taken) (g : ℕ)
    → DistinctInputs fs
    → AllValid k.fifos fs
    → contents ((take_tokens i fs k).fifos g)
      ≡ (if member g fs then tail (contents (k.fifos g)) else contents (k.fifos g))
unfolding take_tokens
contents-take_tokens [] i k g d all = refl
contents-take_tokens (f ∷ fs) i k g d all = elim (Bool-cases (g == f)) [
  | inl e ↦
      let same : g ≡ f = ground arith in
      let here = ap (λ (t : ℕ → Fifo). contents (t g)) (fifos-take_token i f k) in
      let left : contents (update k.fifos f (get_token (k.fifos f)).1 g)
          ≡ tail (contents (k.fifos g)) =
        rw (same, e_refl) (get_token_lem all.0).1 in
      rw e (
        ap contents (take_tokens-other fs (i + 1) (take_token i f k) g (rw same d.0)) ∙ here ∙ left)
  | inr ne ↦
      let there : update k.fifos f (get_token (k.fifos f)).1 g ≡ k.fifos g = ground arith in
      rw ne (
        contents-take_tokens fs (i + 1) (take_token i f k) g d.1
          (rw fifos-take_token (AllValid-update fs k.fifos f (get_token (k.fifos f)).1 d.0 all.1))
        ∙ rw (fifos-take_token, there) refl)
]
  where
    e_refl : (f == f) ≡ true
    e_refl = ==_refl f
