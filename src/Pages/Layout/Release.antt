-- ===== src/Pages/Layout/Release.antt =====
-- Freeing the piece of a row that begins at a page.
use mathlib.Core.Option.{some-injective}
use venus_scheduler.Prelude.{
  ℕ, zero, suc, ◌-◌, ◌≤◌, ◌≡◌, ◌⊎◌, refl, sym, ap, Bool-cases, ltb, arith, inl, inr, List, [], ◌∷◌,
  ◌++◌, Option, none, some, if◌then◌else◌, ◌>>=◌,
}
use venus_scheduler.Pages.Layout.{Piece, pages, total, untaken, untaken_run, taken}

-- The piece that begins at page `o` becomes free.
abbrev pub release : ℕ → List Piece → Option (List Piece)
release o [] = none
release zero (untaken ∷ ps) = some (untaken ∷ ps)
release zero (taken k ∷ ps) = some (untaken_run (suc k) ++ ps)
release (suc o) (p ∷ ps) =
    let rest = release (suc o - pages p) ps in
    if ltb (suc o) (pages p) then none else (rest >>= λ qs. some (p ∷ qs))

-- The page `o` begins a free piece, and nothing changes, or a block, and it becomes free.
abbrev pub Released : ℕ → List Piece → List Piece → Type 0
Released o ps qs =
    ((xs : List Piece) × (ys : List Piece) × (ps ≡ xs ++ untaken ∷ ys) × (qs ≡ ps) × (o ≡ total xs))
    ⊎ ((xs : List Piece) × (ys : List Piece) × (k : ℕ) × (ps ≡ xs ++ taken k ∷ ys)
        × (qs ≡ xs ++ (untaken_run (suc k) ++ ys))
        × (o ≡ total xs))

Released-behind :
    (p : Piece) (o : ℕ) (ps qs : List Piece)
    → pages p ≤ o
    → Released (o - pages p) ps qs
    → Released o (p ∷ ps) (p ∷ qs)
Released-behind p o ps qs le (inl (xs, ys, was, same, at)) =
    inl (p ∷ xs, ys, ap (λ r. p ∷ r) was, ap (λ r. p ∷ r) same, omega arith)
Released-behind p o ps qs le (inr (xs, ys, k, was, is_now, at)) =
    inr (p ∷ xs, ys, k, ap (λ r. p ∷ r) was, ap (λ r. p ∷ r) is_now, omega arith)

release-behind :
    (p : Piece) (o : ℕ) (ps qs : List Piece) (r : Option (List Piece))
    → pages p ≤ o
    → ((qs' : List Piece) → r ≡ some qs' → Released (o - pages p) ps qs')
    → (r >>= λ qs'. some (p ∷ qs')) ≡ some qs
    → Released o (p ∷ ps) qs
release-behind p o ps qs none le rest e = absurd (ground arith)
release-behind p o ps qs (some qs') le rest e =
    rw (← some-injective (p ∷ qs') qs e) (Released-behind p o ps qs' le (rest qs' refl))

pub release-Released : (o : ℕ) (ps qs : List Piece) → release o ps ≡ some qs → Released o ps qs
release-Released o [] qs e = absurd (ground arith)
release-Released zero (untaken ∷ ps) qs e =
    inl ([], ps, refl, sym (some-injective (untaken ∷ ps) qs e), refl)
release-Released zero (taken k ∷ ps) qs e =
    inr ([], ps, k, refl, sym (some-injective (untaken_run (suc k) ++ ps) qs e), refl)
release-Released (suc o) (p ∷ ps) qs e = elim (Bool-cases (ltb (suc o) (pages p))) [
  | inl inside ↦ absurd (ground (arith, rw inside at e))
  | inr past ↦
      release-behind p (suc o) ps qs (release (suc o - pages p) ps) (ground arith)
        (release-Released (suc o - pages p) ps) (rw past at e)
]
