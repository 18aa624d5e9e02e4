-- ===== src/Sched/Recycle/Counts.antt =====
-- The reference counts of data, over tokens that carry them in any order.
use mathlib.Core.List.{append-nil, append_assoc}
use venus_scheduler.Prelude.{
  ℕ, suc, ◌+◌, ◌-◌, ◌%◌, ◌^◌, ◌<◌, ◌≤◌, ◌≡◌, refl, sym, Bool, true, false, List, [], ◌∷◌, ◌++◌,
  arith, ◌==◌, if◌then◌else◌, Bool-cases, inl, inr, ◌∙◌, ap, ==_refl,
}
use venus_scheduler.Sched.State.{Token}
use venus_scheduler.Sched.Recycle.{Garbage, recycle_token, recycle_garbage}

-- Whether a token carries the datum `d`.
abbrev pub carries : (ℕ → Token) → ℕ → ℕ → Bool
carries tokens d t = (tokens t).datum == d

-- How many of the tokens carry the datum `d`.
abbrev pub uses : (ℕ → Token) → ℕ → List ℕ → ℕ
uses tokens d [] = 0
uses tokens d (t ∷ ts) =
    let rest = uses tokens d ts in if carries tokens d t then suc rest else rest

-- How often an address is freed.
abbrev pub times : ℕ → List ℕ → ℕ
times d [] = 0
times d (x ∷ xs) = let rest = times d xs in if x == d then suc rest else rest

times-append :
    (d : ℕ) (xs : List ℕ) (y : ℕ)
    → times d (xs ++ (y ∷ [])) ≡ times d xs + (if y == d then 1 else 0)
times-append d [] y = ground arith
times-append d (x ∷ xs) y = ground (arith, times-append d xs y)

freed_tokens-recycle_garbage :
    (tokens : ℕ → Token) (ts : List ℕ) (g : Garbage)
    → (recycle_garbage tokens ts g).freed_tokens ≡ g.freed_tokens ++ ts
unfolding recycle_garbage recycle_token
freed_tokens-recycle_garbage tokens [] g = sym (append-nil g.freed_tokens)
freed_tokens-recycle_garbage tokens (t ∷ ts) g =
    let here : (recycle_token tokens t g).freed_tokens ≡ g.freed_tokens ++ (t ∷ []) =
      ground arith in
    freed_tokens-recycle_garbage tokens ts (recycle_token tokens t g)
    ∙ ap (λ l. l ++ ts) here
    ∙ append_assoc g.freed_tokens (t ∷ []) ts

module _ (tokens : ℕ → Token) (d t : ℕ) (g : Garbage) where
  abbrev after : Garbage
  after = recycle_token tokens t g

  other_token :
      carries tokens d t ≡ false
      → (times d after.freed_data ≡ times d g.freed_data)
        × ((after.data_of d).cnt ≡ (g.data_of d).cnt)
  unfolding recycle_token
  other_token c =
      let added = times-append d g.freed_data (tokens t).datum in
      elim (Bool-cases ((g.data_of (tokens t).datum).cnt == 1)) [
        | inl e ↦ rw e (ground (arith, added), refl)
        | inr e ↦ rw e (refl, ground arith)
      ]

  last_use :
      carries tokens d t ≡ true
      → (g.data_of d).cnt ≡ 1
      → (times d after.freed_data ≡ times d g.freed_data + 1) × ((after.data_of d).cnt ≡ 1)
  unfolding recycle_token
  last_use c e =
      let same : (tokens t).datum ≡ d = ground arith in
      let one : ((g.data_of d).cnt == 1) ≡ true = ground arith in
      rw (same, one) (times-append d g.freed_data d ∙ ground (arith, ==_refl d), e)

  earlier_use :
      carries tokens d t ≡ true
      → 1 < (g.data_of d).cnt
      → (g.data_of d).cnt < 2 ^ 32
      → (times d after.freed_data ≡ times d g.freed_data)
        × ((after.data_of d).cnt ≡ (g.data_of d).cnt - 1)
  unfolding recycle_token
  earlier_use c more small =
      let same : (tokens t).datum ≡ d = ground arith in
      let several : ((g.data_of d).cnt == 1) ≡ false = ground arith in
      let less : ((g.data_of d).cnt + 2 ^ 32 - 1) % 2 ^ 32 ≡ (g.data_of d).cnt - 1 = omega arith in
      rw (same, several, ==_refl d, less) (refl, refl)

-- How a datum ends that is carried by `n` tokens of the list.
abbrev Counted : (d n : ℕ) → (before after : Garbage) → Type 0
Counted d n g h =
    (times d h.freed_data ≡ times d g.freed_data + (if n == (g.data_of d).cnt then 1 else 0))
    × ((h.data_of d).cnt ≡ (if n == (g.data_of d).cnt then 1 else (g.data_of d).cnt - n))

-- One token more, from the state after it.
module _ (d n : ℕ) (g g' h : Garbage) (rest : Counted d n g' h) where
  other_token-Counted :
      (times d g'.freed_data ≡ times d g.freed_data) × ((g'.data_of d).cnt ≡ (g.data_of d).cnt)
      → Counted d n g h
  other_token-Counted same = rw (← same.0, ← same.1) rest

  last_use-Counted :
      n ≡ 0
      → (g.data_of d).cnt ≡ 1
      → (times d g'.freed_data ≡ times d g.freed_data + 1) × ((g'.data_of d).cnt ≡ 1)
      → Counted d (suc n) g h
  last_use-Counted none_left one same =
      (ground (arith, rest.0, same.0, same.1), ground (arith, rest.1, same.0, same.1))

  earlier_use-Counted :
      1 < (g.data_of d).cnt
      → suc n ≤ (g.data_of d).cnt
      → (times d g'.freed_data ≡ times d g.freed_data)
        × ((g'.data_of d).cnt ≡ (g.data_of d).cnt - 1)
      → Counted d (suc n) g h
  earlier_use-Counted more le same =
      (ground (arith, rest.0, same.0, same.1), ground (arith, rest.1, same.0, same.1))

recycle_garbage-Counted :
    (tokens : ℕ → Token) (d : ℕ) (ts : List ℕ) (g : Garbage)
    → uses tokens d ts ≤ (g.data_of d).cnt
    → 0 < (g.data_of d).cnt
    → (g.data_of d).cnt < 2 ^ 32
    → Counted d (uses tokens d ts) g (recycle_garbage tokens ts g)
unfolding recycle_garbage
recycle_garbage-Counted tokens d [] g le pos small = (ground arith, ground arith)
recycle_garbage-Counted tokens d (t ∷ ts) g le pos small =
    let g' = recycle_token tokens t g in
    let h = recycle_garbage tokens ts g' in
    let n = uses tokens d ts in
    elim (Bool-cases (carries tokens d t)) [
      | inr other ↦
          let same = other_token tokens d t g other in
          let within : n ≤ (g.data_of d).cnt = rw other at le in
          let rest =
            recycle_garbage-Counted tokens d ts g' (omega (arith, same.1)) (omega (arith, same.1))
              (omega (arith, same.1)) in
          rw other (other_token-Counted d n g g' h rest same)
      | inl here ↦
          let within : suc n ≤ (g.data_of d).cnt = rw here at le in
          elim (Bool-cases ((g.data_of d).cnt == 1)) [
            | inl e ↦
                let one : (g.data_of d).cnt ≡ 1 = ground arith in
                let same = last_use tokens d t g here one in
                let rest =
                  recycle_garbage-Counted tokens d ts g' (omega (arith, same.1))
                    (omega (arith, same.1)) (omega (arith, same.1)) in
                rw here (last_use-Counted d n g g' h rest (omega arith) one same)
            | inr e ↦
                let more : 1 < (g.data_of d).cnt = ground arith in
                let same = earlier_use tokens d t g here more small in
                let rest =
                  recycle_garbage-Counted tokens d ts g' (omega (arith, same.1))
                    (omega (arith, same.1)) (omega (arith, same.1)) in
                rw here (earlier_use-Counted d n g g' h rest more within same)
          ]
    ]

-- Let a datum have a count that is positive and below 2^32, and let no more of the tokens carry it
-- than its count, among others that carry other data. Then it is freed once if as many tokens carry
-- it as its count, and not at all otherwise, its count then going down by their number; and each
-- token is freed, in the order of the list.
pub recycle_garbage_lem :
    (tokens : ℕ → Token) (d : ℕ) (ts : List ℕ) (g : Garbage)
    → uses tokens d ts ≤ (g.data_of d).cnt
    → 0 < (g.data_of d).cnt
    → (g.data_of d).cnt < 2 ^ 32
    → (times d (recycle_garbage tokens ts g).freed_data
        ≡ times d g.freed_data + (if uses tokens d ts == (g.data_of d).cnt then 1 else 0))
      × (((recycle_garbage tokens ts g).data_of d).cnt ≡ (
          if uses tokens d ts == (g.data_of d).cnt
          then 1
          else (g.data_of d).cnt - uses tokens d ts))
      × ((recycle_garbage tokens ts g).freed_tokens ≡ g.freed_tokens ++ ts)
recycle_garbage_lem tokens d ts g le pos small =
    let counted = recycle_garbage-Counted tokens d ts g le pos small in
    (counted.0, counted.1, freed_tokens-recycle_garbage tokens ts g)
