-- ===== src/Pages/Layout/Search.antt =====
-- The loops of `malloc` on a table that is a row of pieces.
use venus_scheduler.Prelude.{
  ℕ, zero, suc, ◌+◌, ◌-◌, ◌≤◌, ◌≡◌, refl, sym, ◌∙◌, true, false, arith, Bool-cases, inl, inr, List,
  [], ◌∷◌, Option, none, some,
}
use venus_scheduler.Pages.{is_free, run_free, page_search}
use venus_scheduler.Pages.Layout.{
  Piece, untaken, taken, pages, total, IsRun, Holds, starts_untaken, behind, allocate,
}
use venus_scheduler.Pages.Layout.Marks.{marked}

pub is_free-zero : (flags : ℕ → ℕ) (i : ℕ) → flags i ≡ 0 → is_free flags i ≡ true
unfolding is_free
is_free-zero flags i z = rw z refl

pub is_free-IsRun : (k : ℕ) (flags : ℕ → ℕ) (i : ℕ) → IsRun flags i k → is_free flags i ≡ false
unfolding is_free
is_free-IsRun zero flags i run = rw run refl
is_free-IsRun (suc k) flags i (one, run) = rw one refl

run_free-starts_untaken :
    (ps : List Piece) (n i : ℕ) (flags : ℕ → ℕ)
    → Holds flags i ps
    → n ≤ total ps
    → run_free n flags i ≡ starts_untaken n ps
unfolding run_free
run_free-starts_untaken ps zero i flags h le = refl
run_free-starts_untaken [] (suc n) i flags h le = absurd (omega arith)
run_free-starts_untaken (untaken ∷ ps) (suc n) i flags (z, h) le =
    rw (is_free-zero flags i z) (run_free-starts_untaken ps n (i + 1) flags h (omega arith))
run_free-starts_untaken (taken k ∷ ps) (suc n) i flags (run, h) le =
    rw (is_free-IsRun k flags i run) refl

page_search-past :
    (left npages i : ℕ) (flags : ℕ → ℕ)
    → is_free flags i ≡ false
    → page_search (suc left) flags npages i ≡ page_search left flags npages (suc i)
unfolding page_search
page_search-past left npages i flags busy =
    let next : i + 1 ≡ suc i = omega arith in rw (page_search, busy, next) refl

-- No block starts at a page that is taken.
page_search-skip :
    (m left npages i : ℕ) (flags : ℕ → ℕ)
    → IsRun flags i m
    → page_search left flags npages i ≡ page_search (left - suc m) flags npages (i + suc m)
page_search-skip m zero npages i flags run =
    let none_left : 0 - suc m ≡ 0 = omega arith in rw none_left (unfold page_search in refl)
page_search-skip zero (suc left) npages i flags run =
    let fewer : left ≡ suc left - 1 = omega arith in
    let at : suc i ≡ i + 1 = omega arith in
    page_search-past left npages i flags (is_free-IsRun 0 flags i run) ∙ cc (fewer, at)
page_search-skip (suc m) (suc left) npages i flags (one, run) =
    let at : suc i + suc m ≡ i + suc (suc m) = omega arith in
    let fewer : left - suc m ≡ suc left - suc (suc m) = omega arith in
    page_search-past left npages i flags (is_free-IsRun (suc m) flags i (one, run))
    ∙ page_search-skip m left npages (suc i) flags run
    ∙ cc (fewer, at)

-- The result of the search for a row that starts at page `i`.
abbrev pub placed : ℕ → (ℕ → ℕ) → ℕ → Option (ℕ × List Piece) → Option (ℕ × (ℕ → ℕ))
placed k flags i none = none
placed k flags i (some (o, ps)) = some (i + o, marked k flags (i + o))

placed-behind :
    (k : ℕ) (flags : ℕ → ℕ) (i : ℕ) (p : Piece) (r : Option (ℕ × List Piece))
    → placed k flags i (behind p r) ≡ placed k flags (i + pages p) r
placed-behind k flags i p none = refl
placed-behind k flags i p (some (o, ps)) =
    let at : i + (pages p + o) ≡ i + pages p + o = omega arith in rw at refl

starts_untaken-total : (n : ℕ) (ps : List Piece) → starts_untaken n ps ≡ true → n ≤ total ps
starts_untaken-total zero ps h = omega arith
starts_untaken-total (suc n) [] h = absurd (ground arith)
starts_untaken-total (suc n) (untaken ∷ ps) h = omega (arith, starts_untaken-total n ps h)
starts_untaken-total (suc n) (taken k ∷ ps) h = absurd (ground arith)

allocate-short : (k : ℕ) (ps : List Piece) → total ps ≤ k → allocate k ps ≡ none
allocate-short k [] le = refl
allocate-short k (taken m ∷ ps) le = rw (allocate-short k ps (omega arith)) refl
allocate-short k (untaken ∷ ps) le = elim (Bool-cases (starts_untaken k ps)) [
  | inl e ↦ absurd (omega (arith, starts_untaken-total k ps e))
  | inr e ↦ rw (e, allocate-short k ps (omega arith)) refl
]

pub page_search-here :
    (left k i : ℕ) (flags : ℕ → ℕ)
    → is_free flags i ≡ true
    → run_free k flags (i + 1) ≡ true
    → page_search (suc left) flags (suc k) i ≡ some (i, marked k flags i)
unfolding page_search
page_search-here left k i flags free run =
    let fewer : suc k - 1 ≡ k = omega arith in
    let end : i + suc k - 1 ≡ i + k = omega arith in rw (page_search, free, fewer, run, end) refl

page_search-next :
    (left k i : ℕ) (flags : ℕ → ℕ)
    → is_free flags i ≡ true
    → run_free k flags (i + 1) ≡ false
    → page_search (suc left) flags (suc k) i ≡ page_search left flags (suc k) (i + 1)
unfolding page_search
page_search-next left k i flags free run =
    let fewer : suc k - 1 ≡ k = omega arith in rw (page_search, free, fewer, run) refl

pub page_search-allocate :
    (ps : List Piece) (k i left : ℕ) (flags : ℕ → ℕ)
    → Holds flags i ps
    → left ≡ total ps - k
    → page_search left flags (suc k) i ≡ placed k flags i (allocate k ps)
unfolding page_search
page_search-allocate [] k i zero flags h e = refl
page_search-allocate [] k i (suc left) flags h e = absurd (omega arith)
page_search-allocate (taken m ∷ ps) k i left flags (run, h) e =
    page_search-skip m left (suc k) i flags run
    ∙ page_search-allocate ps k (i + suc m) (left - suc m) flags h (omega arith)
    ∙ sym (placed-behind k flags i (taken m) (allocate k ps))
page_search-allocate (untaken ∷ ps) k i zero flags h e =
    rw (allocate-short k (untaken ∷ ps) (omega arith)) refl
page_search-allocate (untaken ∷ ps) k i (suc left) flags (z, h) e =
    let run = run_free-starts_untaken ps k (i + 1) flags h (omega arith) in
    let later = page_search-allocate ps k (i + 1) left flags h (omega arith) in
    let here : i + 0 ≡ i = omega arith in
    elim (Bool-cases (starts_untaken k ps)) [
      | inl st ↦
          page_search-here left k i flags (is_free-zero flags i z) (run ∙ st) ∙ rw (st, here) refl
      | inr st ↦
          page_search-next left k i flags (is_free-zero flags i z) (run ∙ st)
          ∙ later
          ∙ rw st (sym (placed-behind k flags i untaken (allocate k ps)))
    ]
