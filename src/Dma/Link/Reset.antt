-- ===== src/Dma/Link/Reset.antt =====
-- dma/dma.c, `dma_init`: it waits for the end of the reset.
use venus_scheduler.Prelude.{
  ℕ, ◌≡◌, refl, arith, Bool, true, false, Bool-cases, inl, inr, some, List, [], ◌∷◌, ◌++◌, ◌==◌,
  all,
}
use venus_scheduler.Dma.Phy.{bit_pick, poll_reset, dmac_reset, dmac_config}
use venus_scheduler.Dma.Link.{dma_init}

abbrev pub in_reset : ℕ → Bool
in_reset reset_reg = bit_pick reset_reg 0 == 1

poll_reset-waits :
    (busy later : List ℕ) (r : ℕ)
    → all in_reset busy ≡ true
    → in_reset r ≡ false
    → poll_reset (busy ++ (r ∷ later)) ≡ some later
unfolding poll_reset
poll_reset-waits [] later r waits ends = rw ends refl
poll_reset-waits (b ∷ busy) later r waits ends = elim (Bool-cases (in_reset b)) [
  | inl set_ ↦ rw set_ (poll_reset-waits busy later r (ground arith) ends)
  | inr clear_ ↦ absurd (ground arith)
]

-- `dma_init` requests a reset, looks at the reset register until its bit 0 is clear, and not once
-- more, and then writes the configuration.
pub dma_init-waits :
    (busy later : List ℕ) (r : ℕ)
    → all in_reset busy ≡ true
    → in_reset r ≡ false
    → dma_init (busy ++ (r ∷ later)) ≡ some ((dmac_reset []).0 ∷ dmac_config, later)
unfolding dma_init dmac_reset
dma_init-waits busy later r waits ends = rw (poll_reset-waits busy later r waits ends) refl
