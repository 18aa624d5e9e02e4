-- ===== src/Prelude/Addresses.antt =====
-- Lists of addresses: membership, distinctness, and taking one out.
use Prim.Native.Nat.{ℕ, suc}
use mathlib.Core.Path.{◌≡◌, refl}
use mathlib.Core.Logic.{◌≢◌, inl, inr}
use mathlib.Core.Bool.{Bool, true, false, not, ◌&&◌, ◌||◌}
use mathlib.Core.List.{List, [], ◌∷◌, ◌++◌}
use native.Mathlib.Omega.{arith}
use venus_scheduler.Prelude.Tests.{◌==◌, if◌then◌else◌, Bool-cases}
use venus_scheduler.Prelude.Lists.{length}

abbrev pub has : ℕ → List ℕ → Bool
has a [] = false
has a (x ∷ xs) = (a == x) || has a xs

abbrev pub Distinct : List ℕ → Type 0
Distinct [] = Unit
Distinct (x ∷ xs) = (has x xs ≡ false) × Distinct xs

abbrev pub last_or : ℕ → List ℕ → ℕ
last_or a [] = a
last_or a (x ∷ xs) = last_or x xs

pub has-last : (a : ℕ) (xs : List ℕ) → has (last_or a xs) (a ∷ xs) ≡ true
has-last a [] = ground arith
has-last a (x ∷ xs) = ground (arith, has-last x xs)

pub has-append : (a : ℕ) (xs ys : List ℕ) → has a (xs ++ ys) ≡ (has a xs || has a ys)
has-append a [] ys = refl
has-append a (x ∷ xs) ys = ground (arith, has-append a xs ys)

pub ne_of_has : (xs : List ℕ) (x y : ℕ) → has x xs ≡ true → has y xs ≡ false → x ≢ y
ne_of_has [] x y i o = absurd (ground arith)
ne_of_has (z ∷ xs) x y i o = ground (arith, ne_of_has xs x y)

abbrev pub erase : ℕ → List ℕ → List ℕ
erase x [] = []
erase x (y ∷ ys) = if x == y then ys else y ∷ erase x ys

pub has-erase : (x y : ℕ) (xs : List ℕ) → has y (erase x xs) ≡ true → has y xs ≡ true
has-erase x y [] i = i
has-erase x y (z ∷ xs) i = ground (arith, has-erase x y xs)

pub not-has-erase : (x y : ℕ) (xs : List ℕ) → has y xs ≡ false → has y (erase x xs) ≡ false
not-has-erase x y [] o = refl
not-has-erase x y (z ∷ xs) o = ground (arith, not-has-erase x y xs)

pub Distinct-erase : (x : ℕ) (xs : List ℕ) → Distinct xs → Distinct (erase x xs)
Distinct-erase x [] d = d
Distinct-erase x (y ∷ ys) d = elim (Bool-cases (x == y)) [
  | inl e ↦ rw e d.1
  | inr e ↦ rw e (not-has-erase x y ys d.0, Distinct-erase x ys d.1)
]

pub length-erase : (x : ℕ) (xs : List ℕ) → has x xs ≡ true → suc (length (erase x xs)) ≡ length xs
length-erase x [] i = absurd (ground arith)
length-erase x (y ∷ ys) i = ground (arith, length-erase x ys)

-- Of distinct addresses, exactly the others are left.
pub has-erase-Distinct :
    (x y : ℕ) (xs : List ℕ) → Distinct xs → has y (erase x xs) ≡ (not (y == x) && has y xs)
has-erase-Distinct x y [] d = ground arith
has-erase-Distinct x y (z ∷ zs) d = ground (arith, has-erase-Distinct x y zs d.1)
