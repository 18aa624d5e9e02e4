-- ===== src/Pages/Layout/Marks.antt =====
-- What the loops over page descriptors write, and that a row of pieces sees only its own pages.
use Prim.Native.Nat.{bit_or}
use venus_scheduler.Prelude.{
  ℕ, zero, suc, ◌+◌, ◌<◌, ◌≤◌, ◌≡◌, ◌⊎◌, refl, sym, ◌∙◌, true, false, arith, Bool-cases, inl, inr,
  List, [], ◌∷◌, ◌==◌,
}
use venus_scheduler.Pages.{clear, set_flag, take_run, clear_pages, page_taken, page_last}
use venus_scheduler.Pages.Layout.{Piece, untaken, taken, pages, total, IsRun, IsPiece, Holds}

pub take_run-outside :
    (n : ℕ) (flags : ℕ → ℕ) (a x : ℕ) → (x < a) ⊎ (a + n ≤ x) → take_run n flags a x ≡ flags x
unfolding take_run set_flag
take_run-outside zero flags a x out = refl
take_run-outside (suc n) flags a x out =
    take_run-outside n (set_flag flags a page_taken) (a + 1) x (ground arith) ∙ ground arith

pub take_run-inside :
    (n : ℕ) (flags : ℕ → ℕ) (a x : ℕ)
    → a ≤ x
    → x < a + n
    → take_run n flags a x ≡ bit_or (flags x) 1
unfolding take_run set_flag
take_run-inside zero flags a x ge lt = absurd (omega arith)
take_run-inside (suc n) flags a x ge lt = elim (Bool-cases (a == x)) [
  | inl e ↦ take_run-outside n (set_flag flags a page_taken) (a + 1) x (ground arith) ∙ ground arith
  | inr e ↦
      take_run-inside n (set_flag flags a page_taken) (a + 1) x (ground arith) (omega arith)
      ∙ ground arith
]

pub clear_pages-outside :
    (n : ℕ) (flags : ℕ → ℕ) (a x : ℕ) → (x < a) ⊎ (a + n ≤ x) → clear_pages n flags a x ≡ flags x
unfolding clear_pages clear
clear_pages-outside zero flags a x out = refl
clear_pages-outside (suc n) flags a x out =
    clear_pages-outside n (clear flags a) (a + 1) x (ground arith) ∙ ground arith

pub clear_pages-inside :
    (n : ℕ) (flags : ℕ → ℕ) (a x : ℕ) → a ≤ x → x < a + n → clear_pages n flags a x ≡ 0
unfolding clear_pages clear
clear_pages-inside zero flags a x ge lt = absurd (omega arith)
clear_pages-inside (suc n) flags a x ge lt = elim (Bool-cases (a == x)) [
  | inl e ↦ clear_pages-outside n (clear flags a) (a + 1) x (ground arith) ∙ ground arith
  | inr e ↦ clear_pages-inside n (clear flags a) (a + 1) x (ground arith) (omega arith)
]

-- The table with a block of `k + 1` pages at `a`.
abbrev pub marked : ℕ → (ℕ → ℕ) → ℕ → ℕ → ℕ
marked k flags a = set_flag (take_run (suc k) flags a) (a + k) page_last

pub marked-outside :
    (k : ℕ) (flags : ℕ → ℕ) (a x : ℕ) → (x < a) ⊎ (a + k < x) → marked k flags a x ≡ flags x
unfolding set_flag
marked-outside k flags a x out = ground (arith, take_run-outside (suc k) flags a x)

marked-inside :
    (k : ℕ) (flags : ℕ → ℕ) (a x : ℕ) → a ≤ x → x < a + k → flags x ≡ 0 → marked k flags a x ≡ 1
unfolding set_flag
marked-inside k flags a x ge lt z =
    let other : ((a + k) == x) ≡ false = ground arith in
    rw (other, take_run-inside (suc k) flags a x ge (omega arith), z) refl

marked-last : (k : ℕ) (flags : ℕ → ℕ) (a : ℕ) → flags (a + k) ≡ 0 → marked k flags a (a + k) ≡ 3
unfolding set_flag
marked-last k flags a z =
    let same : ((a + k) == (a + k)) ≡ true = ground arith in
    rw (same, take_run-inside (suc k) flags a (a + k) (omega arith) (omega arith), z) refl

IsRun-of :
    (k : ℕ) (flags : ℕ → ℕ) (i : ℕ)
    → ((x : ℕ) → i ≤ x → x < i + k → flags x ≡ 1)
    → flags (i + k) ≡ 3
    → IsRun flags i k
IsRun-of zero flags i one three = ground arith
IsRun-of (suc k) flags i one three = (
  one i (omega arith) (omega arith),
  IsRun-of k flags (suc i) (λ x ge lt. one x (omega arith) (omega arith)) (ground arith),
)

pub marked-IsRun :
    (k : ℕ) (flags : ℕ → ℕ) (a : ℕ)
    → ((x : ℕ) → a ≤ x → x ≤ a + k → flags x ≡ 0)
    → IsRun (marked k flags a) a k
marked-IsRun k flags a z =
    IsRun-of k (marked k flags a) a
      (λ x ge lt. marked-inside k flags a x ge lt (z x ge (omega arith)))
      (marked-last k flags a (z (a + k) (omega arith) (omega arith)))

pub IsRun-frame :
    (k : ℕ) (f g : ℕ → ℕ) (i : ℕ)
    → ((x : ℕ) → i ≤ x → x < i + suc k → f x ≡ g x)
    → IsRun f i k
    → IsRun g i k
IsRun-frame zero f g i same run = sym (same i (omega arith) (omega arith)) ∙ run
IsRun-frame (suc k) f g i same (one, run) = (
  sym (same i (omega arith) (omega arith)) ∙ one,
  IsRun-frame k f g (suc i) (λ x ge lt. same x (omega arith) (omega arith)) run,
)

pub IsPiece-frame :
    (p : Piece) (f g : ℕ → ℕ) (i : ℕ)
    → ((x : ℕ) → i ≤ x → x < i + pages p → f x ≡ g x)
    → IsPiece f i p
    → IsPiece g i p
IsPiece-frame untaken f g i same z = sym (same i (omega arith) (omega arith)) ∙ z
IsPiece-frame (taken k) f g i same run = IsRun-frame k f g i same run

pub Holds-frame :
    (ps : List Piece) (f g : ℕ → ℕ) (i : ℕ)
    → ((x : ℕ) → i ≤ x → x < i + total ps → f x ≡ g x)
    → Holds f i ps
    → Holds g i ps
Holds-frame [] f g i same h = tt
Holds-frame (p ∷ ps) f g i same (here, rest) = (
  IsPiece-frame p f g i (λ x ge lt. same x ge (omega arith)) here,
  Holds-frame ps f g (i + pages p) (λ x ge lt. same x (omega arith) (omega arith)) rest,
)
