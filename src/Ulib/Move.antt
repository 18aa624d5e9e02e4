-- ===== src/Ulib/Move.antt =====
-- What `memmove` and `memset` leave in the memory.
use venus_scheduler.Prelude.{
  ℕ, zero, suc, ◌+◌, ◌-◌, ◌%◌, ◌<◌, ◌≤◌, ◌≡◌, refl, Bool, true, false, ◌&&◌, arith, ◌==◌,
  if◌then◌else◌, update, ltb, leb, ◌∙◌, Bool-cases, inl, inr,
}
use venus_scheduler.Ulib.{move_up, move_down, memmove, memset_loop, memset}

-- Whether `a` is one of the `n` addresses from `dst`.
abbrev pub within : ℕ → ℕ → ℕ → Bool
within dst n a = leb dst a && ltb a (dst + n)

move_up_lem :
    (n : ℕ) (mem : ℕ → ℕ) (dst src a : ℕ)
    → dst < src
    → move_up n mem dst src a ≡ (if within dst n a then mem (src + (a - dst)) else mem a)
unfolding move_up
move_up_lem zero mem dst src a lt = ground arith
move_up_lem (suc n) mem dst src a lt =
    move_up_lem n (update mem dst (mem src)) (dst + 1) (src + 1) a (omega arith) ∙ ground arith

move_down_lem :
    (n : ℕ) (mem : ℕ → ℕ) (dst src top end a : ℕ)
    → top ≡ dst + n
    → end ≡ src + n
    → src ≤ dst
    → move_down n mem top end a ≡ (if within dst n a then mem (src + (a - dst)) else mem a)
unfolding move_down
move_down_lem zero mem dst src top end a t e le = ground arith
move_down_lem (suc n) mem dst src top end a t e le =
    move_down_lem n (update mem (top - 1) (mem (end - 1))) dst src (top - 1) (end - 1) a
      (omega arith) (omega arith) le
    ∙ split (a == top - 1) refl
  where
    moved : a ≡ top - 1 → src + (a - dst) ≡ end - 1
    moved same = omega arith

    split :
        (b : Bool)
        → (a == top - 1) ≡ b
        → (if within dst n a
            then update mem (top - 1) (mem (end - 1)) (src + (a - dst))
            else update mem (top - 1) (mem (end - 1)) a)
          ≡ (if within dst (suc n) a then mem (src + (a - dst)) else mem a)
    split true here = let at = moved (ground arith) in rw at (ground arith)
    split false there = ground arith

-- After `memmove` the `n` bytes from `dst` are what the `n` bytes from `src` were before, however
-- the two overlap, and no other byte has changed.
pub memmove_lem :
    (mem : ℕ → ℕ) (dst src n a : ℕ)
    → memmove mem dst src n a ≡ (if within dst n a then mem (src + (a - dst)) else mem a)
unfolding memmove
memmove_lem mem dst src n a = elim (Bool-cases (ltb dst src)) [
  | inl up ↦ rw up (move_up_lem n mem dst src a (ground arith))
  | inr down ↦ rw down (move_down_lem n mem dst src (dst + n) (src + n) a refl refl (ground arith))
]

memset_loop_lem :
    (n : ℕ) (mem : ℕ → ℕ) (dst c a : ℕ)
    → memset_loop n mem dst c a ≡ (if within dst n a then c % 256 else mem a)
unfolding memset_loop
memset_loop_lem zero mem dst c a = ground arith
memset_loop_lem (suc n) mem dst c a =
    memset_loop_lem n (update mem dst (c % 256)) (dst + 1) c a ∙ ground arith

-- `memset` puts the byte `c` at the `n` addresses from `dst` and changes no other.
pub memset_lem :
    (mem : ℕ → ℕ) (dst c n a : ℕ)
    → memset mem dst c n a ≡ (if within dst n a then c % 256 else mem a)
unfolding memset
memset_lem mem dst c n a = memset_loop_lem n mem dst c a
