-- ===== src/Ulib/Tests.antt =====
-- Strings and memory at concrete bytes.
use venus_scheduler.Prelude.{ℕ, inr, ◌≡◌, refl, arith, some, [], ◌∷◌, ◌==◌, if◌then◌else◌}
use venus_scheduler.Ulib.{memcmp, memmove, memset, strlen, strcmp}
use venus_scheduler.Ulib.Compare.{memcmp-memmove}
use venus_scheduler.Ulib.Move.{memmove_lem, memset_lem}
use venus_scheduler.Ulib.Strings.{strlen_lem, strcmp_lem}

abbrev counting : ℕ → ℕ
counting a = a

-- The source and the destination overlap.
memmove_lem_example : memmove counting 12 10 5 14 ≡ 12
memmove_lem_example = memmove_lem counting 12 10 5 14

memset_lem_test : memset counting 10 7 4 13 ≡ 7
memset_lem_test = memset_lem counting 10 7 4 13

-- "ab" at 100 and "ac" at 200.
abbrev words : ℕ → ℕ
words a =
    if a == 100
    then 97
    else if a == 101
    then 98
    else if a == 200
    then 97
    else if a == 201
    then 99
    else 0

strlen_lem_test : strlen 3 words 100 ≡ some 2
strlen_lem_test =
    strlen_lem 3 words 100 (97 ∷ 98 ∷ [])
      (refl, omega arith, omega arith, (refl, omega arith, omega arith, refl)) (omega arith)

strcmp_lem_test : strcmp 3 words 100 200 ≡ some 0xffffffff
strcmp_lem_test =
    strcmp_lem 3 words 100 200 (97 ∷ 98 ∷ []) (97 ∷ 99 ∷ [])
      (refl, omega arith, omega arith, (refl, omega arith, omega arith, refl))
      (refl, omega arith, omega arith, (refl, omega arith, omega arith, refl)) (omega arith)

memcmp-memmove_test : memcmp 3 (memmove counting 40 10 3) 40 10 ≡ 0
memcmp-memmove_test = memcmp-memmove counting 40 10 3 (inr (omega arith))
