-- ===== src/Sched/Recycle/Descriptors.antt =====
-- Which descriptors are freed after a transfer.
use venus_scheduler.Prelude.{
  ℕ, zero, suc, ◌≡◌, refl, some, [], ◌∷◌, ◌==◌, if◌then◌else◌, Bool-cases, inl, inr, ==_refl,
}
use venus_scheduler.Dma.Config.{Lli}
use venus_scheduler.Sched.Recycle.{freed_llis, free_transfer}

-- The loop ends within one round, and frees the first descriptor and, if it points to another one,
-- that one: a third descriptor is never freed.
pub free_transfer_lem :
    (rounds : ℕ) (llis : ℕ → Lli) (first : ℕ)
    → free_transfer (suc rounds) llis first
      ≡ some (if first == (llis first).llp then first ∷ [] else first ∷ (llis first).llp ∷ [])
unfolding free_transfer freed_llis
free_transfer_lem zero llis first = elim (Bool-cases (first == (llis first).llp)) [
  | inl alone ↦ rw alone refl
  | inr linked ↦ rw (linked, ==_refl (llis first).llp) refl
]
free_transfer_lem (suc rounds) llis first = elim (Bool-cases (first == (llis first).llp)) [
  | inl alone ↦ rw alone refl
  | inr linked ↦ rw (linked, ==_refl (llis first).llp) refl
]
