-- ===== src/Sched/Launch/Transfers.antt =====
-- Which transfers a ready actor asks for.
use mathlib.Core.List.{reverse-cons}
use venus_scheduler.Prelude.{
  ℕ, ◌+◌, ◌*◌, ◌%◌, ◌^◌, ◌≡◌, refl, List, [], ◌∷◌, ◌++◌, reverse, map, arith, ap, if◌then◌else◌,
  Bool-cases, inl, inr,
}
use venus_scheduler.Sched.State.{Datum, Token, Sched}
use venus_scheduler.Sched.Launch.{Transfer, is_vector, inform_deps, inform_dma}

-- The dependencies that are no vectors, in their order.
abbrev pub scalars : (ℕ → Token) → List ℕ → List ℕ
scalars tokens [] = []
scalars tokens (t ∷ ts) =
    if is_vector (tokens t).attr then scalars tokens ts else t ∷ scalars tokens ts

module _ (tokens : ℕ → Token) (data_of : ℕ → Datum) (base_addr : ℕ) where
  -- The word of a scalar, to the place of its input in the scratchpad of the block.
  abbrev pub scalar_transfer : (block t : ℕ) → Transfer
  scalar_transfer block t = record {
    dst = (base_addr + 0x100000 + (tokens t).attr * 4) % 2 ^ 32;
    src = (data_of (tokens t).datum).ptr;
    len = 4;
    block = block;
    token = t;
  }

  inform_deps-append :
      (block newest : ℕ) (ts : List ℕ)
      → inform_deps tokens data_of base_addr block (ts ++ (newest ∷ []))
        ≡ map (scalar_transfer 0) (scalars tokens ts)
          ++ map (scalar_transfer block) (scalars tokens (newest ∷ []))
  unfolding inform_deps
  inform_deps-append block newest [] = elim (Bool-cases (is_vector (tokens newest).attr)) [
    | inl vector ↦ rw vector refl
    | inr scalar ↦ rw scalar refl
  ]
  inform_deps-append block newest (t ∷ []) =
      let rest = inform_deps-append block newest [] in
      elim (Bool-cases (is_vector (tokens t).attr)) [
        | inl vector ↦ rw vector rest
        | inr scalar ↦ rw scalar (ap (λ l. scalar_transfer 0 t ∷ l) rest)
      ]
  inform_deps-append block newest (t ∷ u ∷ ts) =
      let rest = inform_deps-append block newest (u ∷ ts) in
      elim (Bool-cases (is_vector (tokens t).attr)) [
        | inl vector ↦ rw vector rest
        | inr scalar ↦ rw scalar (ap (λ l. scalar_transfer 0 t ∷ l) rest)
      ]

-- For a ready actor with dependencies, the transfers are, in order: its code, to the base address
-- of the block; each scalar among its dependencies but the newest, which heads the list, from the
-- tail of the list to its head, four bytes from its datum to 0x100000 and four bytes for each index
-- of its attribute behind the base address; and the newest in the same way if it is a scalar. That
-- transfer alone carries the block, so that none does if the newest is a vector.
pub inform_dma_lem :
    (s : Sched) (data_of : ℕ → Datum) (base_addr block actor newest : ℕ) (others : List ℕ)
    → inform_dma s data_of base_addr block
        (record { actor_addr = actor; dep_list = newest ∷ others })
      ≡ record {
        dst = base_addr % 2 ^ 32;
        src = (s.actors actor).task_addr;
        len = (s.actors actor).task_len;
        block = 0;
        token = 0;
      }
        ∷ (map (scalar_transfer s.tokens data_of base_addr 0) (scalars s.tokens (reverse others))
            ++ map
                (scalar_transfer s.tokens data_of base_addr block)
                (scalars s.tokens (newest ∷ [])))
unfolding inform_dma
inform_dma_lem s data_of base_addr block actor newest others =
    let start : base_addr + 0 ≡ base_addr = omega arith in
    rw (start, reverse-cons newest others)
      (ap
        (λ l.
          record {
            dst = base_addr % 2 ^ 32;
            src = (s.actors actor).task_addr;
            len = (s.actors actor).task_len;
            block = 0;
            token = 0;
          }
          ∷ l)
        (inform_deps-append s.tokens data_of base_addr block newest (reverse others)))
