-- ===== src/Sched/Graph/Slots.antt =====
-- One more fifo in the slots of an actor.
use mathlib.Core.Option.{some-injective}
use venus_scheduler.Prelude.{
  ℕ, zero, suc, ◌≡◌, ◌≢◌, refl, arith, Bool, true, false, not, ◌||◌, List, [], ◌∷◌, ◌==◌, has,
  get_elem?, set, some,
}
use venus_scheduler.Fifo.{null}
use venus_scheduler.Sched.Create.{nulls, null_rows, node_make_out, set_first}

-- No fifo stands in two slots of an array.
abbrev pub NoTwice : List ℕ → Type 0
NoTwice [] = Unit
NoTwice (x ∷ xs) = ((x == null) || not (has x xs) ≡ true) × NoTwice xs

pub has-set : (xs : List ℕ) (i f g : ℕ) → has g xs ≡ false → g ≢ f → has g (set xs i f) ≡ false
has-set [] i f g o ne = refl
has-set (x ∷ xs) zero f g o ne = ground arith
has-set (x ∷ xs) (suc i) f g o ne = ground (arith, has-set xs i f g)

pub NoTwice-set : (xs : List ℕ) (i f : ℕ) → NoTwice xs → has f xs ≡ false → NoTwice (set xs i f)
NoTwice-set [] i f w o = w
NoTwice-set (x ∷ xs) zero f w o = (ground arith, w.1)
NoTwice-set (x ∷ xs) (suc i) f w o =
    (ground (arith, w.0, has-set xs i f x), NoTwice-set xs i f w.1 (ground arith))

pub has-node_make_out :
    (xs : List ℕ) (f g : ℕ) → has g xs ≡ false → g ≢ f → has g (node_make_out xs f) ≡ false
unfolding node_make_out
has-node_make_out [] f g o ne = refl
has-node_make_out (x ∷ xs) f g o ne = ground (arith, has-node_make_out xs f g)

-- Whether a fifo stands in an array of arrays.
abbrev pub held : ℕ → List (List ℕ) → Bool
held g [] = false
held g (r ∷ rs) = has g r || held g rs

pub held-set :
    (rs : List (List ℕ)) (d g : ℕ) (r : List ℕ)
    → held g rs ≡ false
    → has g r ≡ false
    → held g (set rs d r) ≡ false
held-set [] d g r o n = refl
held-set (q ∷ rs) zero g r o n = ground arith
held-set (q ∷ rs) (suc d) g r o n = ground (arith, held-set rs d g r)

pub held-get :
    (rs : List (List ℕ)) (d g : ℕ) (r : List ℕ)
    → held g rs ≡ false
    → get_elem? rs d ≡ some r
    → has g r ≡ false
held-get [] d g r o e = absurd (ground arith)
held-get (q ∷ rs) zero g r o e = rw (← some-injective q r e) (ground arith)
held-get (q ∷ rs) (suc d) g r o e = held-get rs d g r (ground arith) e

pub held-set_first :
    (rs : List (List ℕ)) (f g : ℕ) → held g rs ≡ false → g ≢ f → held g (set_first rs f) ≡ false
unfolding set_first
held-set_first [] f g o ne = refl
held-set_first (r ∷ rs) f g o ne = ground (arith, has-set r 0 f g)

pub has-nulls : (n g : ℕ) → g ≢ null → has g (nulls n) ≡ false
unfolding nulls
has-nulls zero g ne = refl
has-nulls (suc n) g ne = ground (arith, has-nulls n g ne)

pub held-null_rows : (n g : ℕ) → g ≢ null → held g (null_rows n) ≡ false
unfolding null_rows
held-null_rows zero g ne = refl
held-null_rows (suc n) g ne = ground (arith, has-nulls 11 g ne, held-null_rows n g ne)

pub NoTwice-nulls : (n : ℕ) → NoTwice (nulls n)
unfolding nulls
NoTwice-nulls zero = tt
NoTwice-nulls (suc n) = (refl, NoTwice-nulls n)
