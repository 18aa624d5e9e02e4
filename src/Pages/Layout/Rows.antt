-- ===== src/Pages/Layout/Rows.antt =====
-- Rows of pieces: where a block is put, and where one is taken away.
use mathlib.Core.Option.{some-injective}
use venus_scheduler.Prelude.{
  ℕ, zero, suc, ◌+◌, ◌<◌, ◌≤◌, ◌≡◌, refl, sym, ap, ◌∙◌, true, arith, Bool-cases, inl, inr, List, [],
  ◌∷◌, ◌++◌, ◌==◌, Option, none, some,
}
use venus_scheduler.Pages.{clear_pages}
use venus_scheduler.Pages.Layout.{
  Piece, untaken, taken, pages, total, Holds, untaken_run, starts_untaken, without, behind,
  allocate,
}
use venus_scheduler.Pages.Layout.Marks.{
  marked, marked-outside, marked-IsRun, Holds-frame, clear_pages-outside, clear_pages-inside,
}

pub total-append : (xs ys : List Piece) → total (xs ++ ys) ≡ total xs + total ys
total-append [] ys = omega arith
total-append (x ∷ xs) ys = omega (arith, total-append xs ys)

pub total-untaken_run : (n : ℕ) → total (untaken_run n) ≡ n
total-untaken_run zero = refl
total-untaken_run (suc n) = omega (arith, total-untaken_run n)

pub Holds-append :
    (xs ys : List Piece) (flags : ℕ → ℕ) (i : ℕ)
    → Holds flags i (xs ++ ys)
    → Holds flags i xs × Holds flags (i + total xs) ys
Holds-append [] ys flags i h = (tt, let at : i + 0 ≡ i = omega arith in rw at h)
Holds-append (x ∷ xs) ys flags i (here, h) =
    let (front, back) = Holds-append xs ys flags (i + pages x) h in
    let at : i + (pages x + total xs) ≡ i + pages x + total xs = omega arith in
    ((here, front), rw at back)

pub Holds-join :
    (xs ys : List Piece) (flags : ℕ → ℕ) (i : ℕ)
    → Holds flags i xs
    → Holds flags (i + total xs) ys
    → Holds flags i (xs ++ ys)
Holds-join [] ys flags i front back = let at : i + 0 ≡ i = omega arith in rw at at back
Holds-join (x ∷ xs) ys flags i (here, front) back =
    let at : i + (pages x + total xs) ≡ i + pages x + total xs = omega arith in
    (here, Holds-join xs ys flags (i + pages x) front (rw at at back))

pub untaken_run-zero :
    (n : ℕ) (flags : ℕ → ℕ) (i x : ℕ)
    → Holds flags i (untaken_run n)
    → i ≤ x
    → x < i + n
    → flags x ≡ 0
untaken_run-zero zero flags i x h ge lt = absurd (omega arith)
untaken_run-zero (suc n) flags i x (z, h) ge lt = elim (Bool-cases (i == x)) [
  | inl e ↦ ground arith
  | inr e ↦ untaken_run-zero n flags (i + 1) x h (ground arith) (omega arith)
]

pub zero-untaken_run :
    (n : ℕ) (flags : ℕ → ℕ) (i : ℕ)
    → ((x : ℕ) → i ≤ x → x < i + n → flags x ≡ 0)
    → Holds flags i (untaken_run n)
zero-untaken_run zero flags i z = tt
zero-untaken_run (suc n) flags i z = (
  z i (omega arith) (omega arith),
  zero-untaken_run n flags (i + 1) (λ x ge lt. z x (omega arith) (omega arith)),
)

-- A run of free pages becomes a block.
pub marked-Holds :
    (xs ys : List Piece) (k : ℕ) (flags : ℕ → ℕ) (i : ℕ)
    → Holds flags i (xs ++ (untaken_run (suc k) ++ ys))
    → Holds (marked k flags (i + total xs)) i (xs ++ taken k ∷ ys)
marked-Holds xs ys k flags i h =
    let (front, mid) = Holds-append xs (untaken_run (suc k) ++ ys) flags i h in
    let (run, back) = Holds-append (untaken_run (suc k)) ys flags (i + total xs) mid in
    let start : ℕ = i + total xs in
    let width : total (untaken_run (suc k)) ≡ suc k = total-untaken_run (suc k) in
    let new : ℕ → ℕ = marked k flags start in
    Holds-join xs (taken k ∷ ys) new i
      (Holds-frame xs flags new i (λ x ge lt. sym (marked-outside k flags start x (inl lt))) front)
      (
        marked-IsRun k flags start
            (λ x ge le. untaken_run-zero (suc k) flags start x run ge (omega arith)),
        Holds-frame ys flags new (start + suc k)
            (λ x ge lt. sym (marked-outside k flags start x (inr (omega arith))))
            (rw width at back),
      )

-- A block becomes a run of free pages.
pub clear_pages-Holds :
    (xs ys : List Piece) (k : ℕ) (flags : ℕ → ℕ) (i : ℕ)
    → Holds flags i (xs ++ taken k ∷ ys)
    → Holds (clear_pages (suc k) flags (i + total xs)) i (xs ++ (untaken_run (suc k) ++ ys))
clear_pages-Holds xs ys k flags i h =
    let (front, (run, back)) = Holds-append xs (taken k ∷ ys) flags i h in
    let start : ℕ = i + total xs in
    let width : total (untaken_run (suc k)) ≡ suc k = total-untaken_run (suc k) in
    let new : ℕ → ℕ = clear_pages (suc k) flags start in
    Holds-join xs (untaken_run (suc k) ++ ys) new i
      (Holds-frame xs flags new i
        (λ x ge lt. sym (clear_pages-outside (suc k) flags start x (inl lt))) front)
      (Holds-join (untaken_run (suc k)) ys new start
        (zero-untaken_run (suc k) new start
          (λ x ge lt. clear_pages-inside (suc k) flags start x ge lt))
        (rw width (
          Holds-frame ys flags new (start + suc k)
            (λ x ge lt. sym (clear_pages-outside (suc k) flags start x (inr (omega arith)))) back)))

starts_untaken-append :
    (n : ℕ) (ps : List Piece) → starts_untaken n ps ≡ true → ps ≡ untaken_run n ++ without n ps
starts_untaken-append zero ps st = refl
starts_untaken-append (suc n) [] st = absurd (ground arith)
starts_untaken-append (suc n) (taken m ∷ ps) st = absurd (ground arith)
starts_untaken-append (suc n) (untaken ∷ ps) st =
    ap (λ r. untaken ∷ r) (starts_untaken-append n ps st)

starts_untaken-run : (n : ℕ) (ys : List Piece) → starts_untaken n (untaken_run n ++ ys) ≡ true
starts_untaken-run zero ys = refl
starts_untaken-run (suc n) ys = starts_untaken-run n ys

-- Where a block of `k + 1` pages lies that was put into `ps`.
pub record IsPlaced (k : ℕ) (ps : List Piece) (o : ℕ) (qs : List Piece) : Type 0 where
  pub front : List Piece
  pub back : List Piece
  pub was : ps ≡ front ++ (untaken_run (suc k) ++ back)
  pub is_now : qs ≡ front ++ taken k ∷ back
  pub before : o ≡ total front

behind-IsPlaced :
    (p : Piece) (k : ℕ) (ps : List Piece) (r : Option (ℕ × List Piece)) (o : ℕ) (qs : List Piece)
    → ((o' : ℕ) (qs' : List Piece) → r ≡ some (o', qs') → IsPlaced k ps o' qs')
    → behind p r ≡ some (o, qs)
    → IsPlaced k (p ∷ ps) o qs
behind-IsPlaced p k ps none o qs later e = absurd (ground arith)
behind-IsPlaced p k ps (some (o', qs')) o qs later e =
    let at = later o' qs' refl in
    let same = some-injective (pages p + o', p ∷ qs') (o, qs) e in
    record {
      front = p ∷ at.front;
      back = at.back;
      was = ap (λ r. p ∷ r) at.was;
      is_now = sym (ap (λ r. r.1) same) ∙ ap (λ r. p ∷ r) at.is_now;
      before = sym (ap (λ r. r.0) same) ∙ ap (λ r. pages p + r) at.before;
    }

pub allocate-IsPlaced :
    (ps : List Piece) (k o : ℕ) (qs : List Piece)
    → allocate k ps ≡ some (o, qs)
    → IsPlaced k ps o qs
allocate-IsPlaced [] k o qs e = absurd (ground arith)
allocate-IsPlaced (taken m ∷ ps) k o qs e =
    behind-IsPlaced (taken m) k ps (allocate k ps) o qs (allocate-IsPlaced ps k) e
allocate-IsPlaced (untaken ∷ ps) k o qs e = elim (Bool-cases (starts_untaken k ps)) [
  | inl st ↦
      let same = some-injective (0, taken k ∷ without k ps) (o, qs) (rw st at e) in
      record {
        front = [];
        back = without k ps;
        was = ap (λ r. untaken ∷ r) (starts_untaken-append k ps st);
        is_now = sym (ap (λ r. r.1) same);
        before = sym (ap (λ r. r.0) same);
      }
  | inr st ↦ behind-IsPlaced untaken k ps (allocate k ps) o qs (allocate-IsPlaced ps k) (rw st at e)
]

-- Every run of `k + 1` free pages is found, or one before it.
pub allocate-first :
    (xs ys : List Piece) (k : ℕ)
    → (o : ℕ) × (qs : List Piece) × (allocate k (xs ++ (untaken_run (suc k) ++ ys)) ≡ some (o, qs))
      × (o ≤ total xs)
allocate-first [] ys k =
    (0, taken k ∷ without k (untaken_run k ++ ys), rw (starts_untaken-run k ys) refl, omega arith)
allocate-first (taken m ∷ xs) ys k =
    let (o, qs, e, le) = allocate-first xs ys k in (suc m + o, taken m ∷ qs, rw e refl, omega arith)
allocate-first (untaken ∷ xs) ys k =
    let (o, qs, e, le) = allocate-first xs ys k in
    elim (Bool-cases (starts_untaken k (xs ++ (untaken_run (suc k) ++ ys)))) [
      | inl st ↦
          (0, taken k ∷ without k (xs ++ (untaken_run (suc k) ++ ys)), rw st refl, omega arith)
      | inr st ↦ (1 + o, untaken ∷ qs, rw (st, e) refl, omega arith)
    ]
