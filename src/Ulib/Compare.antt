-- ===== src/Ulib/Compare.antt =====
-- `memcmp` of what `memmove` has copied.
use venus_scheduler.Prelude.{
  ℕ, zero, suc, ◌+◌, ◌-◌, ◌<◌, ◌≤◌, ◌≡◌, ◌⊎◌, inl, inr, refl, arith, ◌∙◌, sym, true, false, ap,
}
use venus_scheduler.Ulib.{memmove, memcmp}
use venus_scheduler.Ulib.Move.{within, memmove_lem}

memcmp-equal :
    (n : ℕ) (mem : ℕ → ℕ) (s1 s2 : ℕ)
    → ((i : ℕ) → i < n → mem (s1 + i) ≡ mem (s2 + i))
    → memcmp n mem s1 s2 ≡ 0
unfolding memcmp
memcmp-equal zero mem s1 s2 same = refl
memcmp-equal (suc n) mem s1 s2 same =
    let first : mem s1 ≡ mem s2 =
      ap mem (omega arith) ∙ same 0 (omega arith) ∙ ap mem (omega arith) in
    let rest : memcmp n mem (s1 + 1) (s2 + 1) ≡ 0 =
      memcmp-equal n mem (s1 + 1) (s2 + 1)
        (λ i lt. ap mem (omega arith) ∙ same (suc i) (omega arith) ∙ ap mem (omega arith)) in
    ground arith

-- After `memmove`, `memcmp` finds no difference between the `n` bytes of the destination and of
-- the source, if the two do not overlap.
pub memcmp-memmove :
    (mem : ℕ → ℕ) (dst src n : ℕ)
    → (dst + n ≤ src) ⊎ (src + n ≤ dst)
    → memcmp n (memmove mem dst src n) dst src ≡ 0
memcmp-memmove mem dst src n apart = memcmp-equal n (memmove mem dst src n) dst src (λ i lt.
    memmove_lem mem dst src n (dst + i)
    ∙ rw (inside i lt, place i)
        (sym (memmove_lem mem dst src n (src + i) ∙ rw (outside i lt apart) refl)))
  where
    inside : (i : ℕ) → i < n → within dst n (dst + i) ≡ true
    inside i lt = ground arith

    place : (i : ℕ) → dst + i - dst ≡ i
    place i = omega arith

    outside : (i : ℕ) → i < n → (dst + n ≤ src) ⊎ (src + n ≤ dst) → within dst n (src + i) ≡ false
    outside i lt (inl before) = ground arith
    outside i lt (inr behind) = ground arith
