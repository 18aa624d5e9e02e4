-- ===== src/Pages/Calls.antt =====
-- src/falloc.c: sequences of calls, against a row of pieces that knows neither descriptors nor
-- searches.
use mathlib.Core.Option.{some-injective}
use venus_scheduler.Prelude.{
  ℕ, ◌+◌, ◌-◌, ◌*◌, ◌/◌, ◌%◌, ◌<◌, ◌≤◌, ◌≡◌, refl, ap, not, ◌||◌, false, Bool-cases, ltb, ◌==◌,
  arith, inl, inr, List, [], ◌∷◌, ◌++◌, Option, none, some, if◌then◌else◌, ◌>>=◌, Option-cases,
}
use venus_scheduler.Pages.{PageHeap, page_malloc, page_free}
use venus_scheduler.Pages.Layout.{Piece, pages, total, IsPages, untaken, taken, allocate}
use venus_scheduler.Pages.Layout.Release.{release, Released, release-Released}
use venus_scheduler.Pages.Layout.Rows.{total-append}
use venus_scheduler.Pages.Malloc.{more_pages, page_malloc-allocate, with_block}
use venus_scheduler.Pages.Free.{
  page_free-without_block, without_block, without_block-IsPages, page_free-untaken,
}

pub data Call : Type 0 where
  ask : ℕ → Call
  give_back : ℕ → Call

-- A call on a row at `start`, and its answer; `none` if it breaks the rules of the allocator: a size
-- that is 0 or above that of all pages, or a pointer that is not NULL and not the first page of a
-- piece.
abbrev pub allocated : ℕ → List Piece → Option (ℕ × List Piece) → List Piece × ℕ
allocated start ps none = (ps, 0)
allocated start ps (some (o, qs)) = (qs, start + 256 * o)

abbrev pub row_step : ℕ → Call → List Piece → Option (List Piece × ℕ)
row_step start (ask size) ps =
    if (size == 0) || ltb (256 * total ps) size
    then none
    else some (allocated start ps (allocate (more_pages size) ps))
row_step start (give_back p) ps =
    if p == 0
    then some (ps, 0)
    else if ltb p start || not ((p - start) % 256 == 0)
    then none
    else (release ((p - start) / 256) ps >>= λ qs. some (qs, 0))

abbrev pub code_step : ℕ → Call → PageHeap → Option (PageHeap × ℕ)
code_step fuel (ask size) s = some (page_malloc s size)
code_step fuel (give_back p) s = page_free fuel s p >>= λ s'. some (s', 0)

-- The state after some calls, and their answers.
module _ {ℓ} {S : Type ℓ} (step : Call → S → Option (S × ℕ)) where
  abbrev pub run : List Call → S → Option (S × List ℕ)
  run [] s = some (s, [])
  run (c ∷ cs) s = step c s >>= λ now. run cs now.0 >>= λ later. some (later.0, now.1 ∷ later.1)

-- The pool and the row after the same call.
abbrev pub Follows : PageHeap → PageHeap → List Piece → Type 0
Follows s s' qs = IsPages s' qs × (s'.alloc_start ≡ s.alloc_start) × (s'.num_pages ≡ s.num_pages)

ask-Follows :
    (s : PageHeap) (ps qs : List Piece) (size answer : ℕ)
    → IsPages s ps
    → row_step s.alloc_start (ask size) ps ≡ some (qs, answer)
    → (s' : PageHeap) × (page_malloc s size ≡ (s', answer)) × Follows s s' qs
ask-Follows s ps qs size answer h e = elim (Bool-cases ((size == 0) || ltb (256 * total ps) size)) [
  | inl bad ↦ absurd (ground (arith, rw bad at e))
  | inr good ↦
      let same =
        some-injective (allocated s.alloc_start ps (allocate (more_pages size) ps)) (qs, answer)
          (rw good at e) in
      elim (page_malloc-allocate s ps size h (ground arith) (ground (arith, h.all_pages))) [
        | inl (missing, result) ↦
            let (row, nothing) = pair-eq (ps, 0) (qs, answer) (rw missing at same) in
            (s, rw (← nothing) result, (rw (← row) h, refl, refl))
        | inr (o, qs', found, result, new) ↦
            let (row, address) =
              pair-eq (qs', s.alloc_start + 256 * o) (qs, answer) (rw found at same) in
            (with_block s (more_pages size) o, rw (← address) result, (rw (← row) new, refl, refl))
      ]
]
  where
    pair-eq : (a b : List Piece × ℕ) → a ≡ b → (a.0 ≡ b.0) × (a.1 ≡ b.1)
    pair-eq a b same = (ap (λ r. r.0) same, ap (λ r. r.1) same)

within : (xs ys : List Piece) (p : Piece) → total xs + pages p ≤ total (xs ++ p ∷ ys)
within xs ys p = omega (arith, total-append xs (p ∷ ys))

piece_address :
    (start p o : ℕ)
    → (ltb p start || not ((p - start) % 256 == 0)) ≡ false
    → (p - start) / 256 ≡ o
    → p ≡ start + 256 * o
piece_address start p o good e = ground arith

give_back-Released :
    (fuel : ℕ) (s : PageHeap) (ps qs : List Piece) (o : ℕ)
    → IsPages s ps
    → s.num_pages ≤ fuel
    → Released o ps qs
    → (s' : PageHeap) × (page_free fuel s (s.alloc_start + 256 * o) ≡ some s') × Follows s s' qs
give_back-Released fuel s ps qs o h enough (inl (xs, ys, was, same, at)) =
    let row : IsPages s (xs ++ untaken ∷ ys) = rw was at h in
    let room : 0 < fuel = omega (arith, within xs ys untaken, ap total was, h.all_pages) in
    (s, rw at (page_free-untaken fuel s xs ys row room), (rw same h, refl, refl))
give_back-Released fuel s ps qs o h enough (inr (xs, ys, k, was, is_now, at)) =
    let row : IsPages s (xs ++ taken k ∷ ys) = rw was at h in
    let room : k < fuel = omega (arith, within xs ys (taken k), ap total was, h.all_pages) in
    (
      without_block s k (total xs),
      rw at (page_free-without_block fuel s xs ys k row room),
      (rw is_now (without_block-IsPages s xs ys k row), refl, refl),
    )

page_free-null : (fuel : ℕ) (s : PageHeap) → page_free fuel s 0 ≡ some s
unfolding page_free
page_free-null fuel s = refl

give_back-Follows :
    (fuel : ℕ) (s : PageHeap) (ps qs : List Piece) (p answer : ℕ)
    → IsPages s ps
    → s.num_pages ≤ fuel
    → row_step s.alloc_start (give_back p) ps ≡ some (qs, answer)
    → (s' : PageHeap) × (code_step fuel (give_back p) s ≡ some (s', answer)) × Follows s s' qs
give_back-Follows fuel s ps qs p answer h enough e = elim (Bool-cases (p == 0)) [
  | inl null ↦
      let same = some-injective (ps, 0) (qs, answer) (rw null at e) in
      let zero_ptr : p ≡ 0 = ground arith in
      (
        s,
        rw (zero_ptr, page_free-null fuel s) (ap (λ r. some (s, r)) (ap (λ r. r.1) same)),
        (rw (← ap (λ r. r.0) same) h, refl, refl),
      )
  | inr there ↦ elim (Bool-cases (ltb p s.alloc_start || not ((p - s.alloc_start) % 256 == 0))) [
    | inl bad ↦ absurd (ground (arith, rw (there, bad) at e))
    | inr good ↦ elim (Option-cases (release ((p - s.alloc_start) / 256) ps)) [
      | inl fails ↦ absurd (ground (arith, rw (there, good, fails) at e))
      | inr (qs', released) ↦
          let same = some-injective (qs', 0) (qs, answer) (rw (there, good, released) at e) in
          let (s', freed, (new, start, num)) =
            give_back-Released fuel s ps qs' ((p - s.alloc_start) / 256) h enough
              (release-Released ((p - s.alloc_start) / 256) ps qs' released) in
          let address = piece_address s.alloc_start p _ good refl in
          (
            s',
            rw (address, freed) (ap (λ r. some (s', r)) (ap (λ r. r.1) same)),
            (rw (← ap (λ r. r.0) same) new, start, num),
          )
    ]
  ]
]

step-Follows :
    (fuel : ℕ) (s : PageHeap) (ps qs : List Piece) (c : Call) (answer : ℕ)
    → IsPages s ps
    → s.num_pages ≤ fuel
    → row_step s.alloc_start c ps ≡ some (qs, answer)
    → (s' : PageHeap) × (code_step fuel c s ≡ some (s', answer)) × Follows s s' qs
step-Follows fuel s ps qs (ask size) answer h enough e =
    let (s', result, after) = ask-Follows s ps qs size answer h e in (s', ap some result, after)
step-Follows fuel s ps qs (give_back p) answer h enough e =
    give_back-Follows fuel s ps qs p answer h enough e

-- Over every sequence of calls that keeps the rules of the allocator, the pool gives the answers
-- that the row of pieces gives, each call returns, and the pool stays such a row.
pub page_run_refines :
    (fuel : ℕ) (calls : List Call) (s : PageHeap) (ps qs : List Piece) (answers : List ℕ)
    → IsPages s ps
    → s.num_pages ≤ fuel
    → run (row_step s.alloc_start) calls ps ≡ some (qs, answers)
    → (s' : PageHeap) × (run (code_step fuel) calls s ≡ some (s', answers)) × IsPages s' qs
page_run_refines fuel [] s ps qs answers h enough e =
    let same = some-injective (ps, []) (qs, answers) e in
    (s, ap (λ r. some (s, r)) (ap (λ r. r.1) same), rw (← ap (λ r. r.0) same) h)
page_run_refines fuel (c ∷ cs) s ps qs answers h enough e =
    elim (Option-cases (row_step s.alloc_start c ps)) [
      | inl fails ↦ absurd (ground (arith, rw fails at e))
      | inr ((ps', answer), first) ↦
          let (s', code, (h', start, num)) = step-Follows fuel s ps ps' c answer h enough first in
          elim (Option-cases (run (row_step s.alloc_start) cs ps')) [
            | inl fails ↦ absurd (ground (arith, rw (first, fails) at e))
            | inr ((qs', answers'), later) ↦
                let same =
                  some-injective (qs', answer ∷ answers') (qs, answers) (rw (first, later) at e) in
                let (s'', rest, final) =
                  page_run_refines fuel cs s' ps' qs' answers' h' (omega arith) (rw start later) in
                (
                  s'',
                  rw (code, rest) (ap (λ r. some (s'', r)) (ap (λ r. r.1) same)),
                  rw (← ap (λ r. r.0) same) final,
                )
          ]
    ]
