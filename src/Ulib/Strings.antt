-- ===== src/Ulib/Strings.antt =====
-- `strlen` and `strcmp` on strings that end.
use venus_scheduler.Prelude.{
  ℕ, zero, suc, ◌+◌, ◌-◌, ◌%◌, ◌<◌, ◌≡◌, ◌≢◌, refl, arith, ◌==◌, if◌then◌else◌, some, List, [], ◌∷◌,
  length, ◌∙◌, Bool-cases, inl, inr,
}
use venus_scheduler.Ulib.{strlen_loop, strlen, strcmp, word_size}

-- The bytes from `s` on are `xs`, none of them 0, and then a 0.
abbrev pub IsString : (ℕ → ℕ) → ℕ → List ℕ → Type 0
IsString mem s [] = mem s ≡ 0
IsString mem s (x ∷ xs) = (mem s ≡ x) × (x ≢ 0) × (x < 256) × IsString mem (s + 1) xs

-- The difference of the first bytes in which two strings differ, a missing byte counting as 0,
-- modulo 2^32; 0 for equal strings.
abbrev pub difference : List ℕ → List ℕ → ℕ
difference [] [] = 0
difference [] (y ∷ ys) = word_size - y
difference (x ∷ xs) [] = x
difference (x ∷ xs) (y ∷ ys) = if x == y then difference xs ys else (x + word_size - y) % word_size

strlen_loop_lem :
    (fuel : ℕ) (mem : ℕ → ℕ) (s n at : ℕ) (xs : List ℕ)
    → at ≡ s + n
    → IsString mem at xs
    → length xs < fuel
    → strlen_loop fuel mem s n ≡ some (n + length xs)
unfolding strlen_loop
strlen_loop_lem zero mem s n at xs e str lt = absurd (omega arith)
strlen_loop_lem (suc fuel) mem s n at [] e str lt = ground arith
strlen_loop_lem (suc fuel) mem s n at (x ∷ xs) e (here, nz, _, rest) lt =
    let again = strlen_loop_lem fuel mem s (n + 1) (at + 1) xs (omega arith) rest (omega arith) in
    ground arith

-- `strlen` of a string ends, in more steps than its length, and gives that length.
pub strlen_lem :
    (fuel : ℕ) (mem : ℕ → ℕ) (s : ℕ) (xs : List ℕ)
    → IsString mem s xs
    → length xs < fuel
    → strlen fuel mem s ≡ some (length xs)
unfolding strlen
strlen_lem fuel mem s xs str lt =
    strlen_loop_lem fuel mem s 0 s xs (omega arith) str lt ∙ ground arith

-- `strcmp` of two strings ends, in more steps than the length of the first, and gives the
-- difference of the first bytes in which they differ.
pub strcmp_lem :
    (fuel : ℕ) (mem : ℕ → ℕ) (p q : ℕ) (xs ys : List ℕ)
    → IsString mem p xs
    → IsString mem q ys
    → length xs < fuel
    → strcmp fuel mem p q ≡ some (difference xs ys)
unfolding strcmp
strcmp_lem zero mem p q xs ys sx sy lt = absurd (omega arith)
strcmp_lem (suc fuel) mem p q [] [] sx sy lt = ground arith
strcmp_lem (suc fuel) mem p q [] (y ∷ ys) sx sy lt = ground arith
strcmp_lem (suc fuel) mem p q (x ∷ xs) [] sx sy lt = ground arith
strcmp_lem (suc fuel) mem p q (x ∷ xs) (y ∷ ys) (ax, nx, bx, rx) (ay, ny, by_, ry) lt =
    let again = strcmp_lem fuel mem (p + 1) (q + 1) xs ys rx ry (omega arith) in ground arith

AllBytes : List ℕ → Type 0
AllBytes [] = Unit
AllBytes (x ∷ xs) = (x < 256) × (x ≢ 0) × AllBytes xs

-- The difference is 0 for equal strings only, so `strcmp` decides equality.
difference-zero : (xs ys : List ℕ) → AllBytes xs → AllBytes ys → difference xs ys ≡ 0 → xs ≡ ys
unfolding AllBytes
difference-zero [] [] bx by_ e = refl
difference-zero [] (y ∷ ys) bx by_ e = absurd (omega arith)
difference-zero (x ∷ xs) [] bx by_ e = absurd (omega arith)
difference-zero (x ∷ xs) (y ∷ ys) (x256, x0, bx) (y256, y0, by_) e = elim (Bool-cases (x == y)) [
  | inl same ↦
      let rest = difference-zero xs ys bx by_ (ground arith) in
      let head : x ≡ y = ground arith in rw (head, rest) refl
  | inr other ↦ absurd (ground arith)
]
