-- ===== src/Dma/Interrupt/Priority.antt =====
-- Which interrupt a handler of dma/phy_interface.c acts on.
use venus_scheduler.Prelude.{
  ℕ, ◌+◌, ◌/◌, ◌^◌, ◌<◌, ◌≡◌, refl, Bool, true, false, ◌||◌, List, [], ◌∷◌, arith, ◌==◌, Bool-cases,
  inl, inr, ◌⊎◌,
}
use venus_scheduler.Prelude.Bits.{test_bit, bit_and_low}
use venus_scheduler.Dma.Phy.{RegWrite, reg_write, dmac_addr, ch_offset, bit_pick}
use venus_scheduler.Dma.Interrupt.{
  first_set, clear_write, channel_tests, channel_interrupt_handler, channel_order,
  common_interrupt_handler, interrupt_handler,
}

-- Bit `b` is tested by the chain.
abbrev pub tests_bit : ℕ → List (ℕ × ℕ) → Bool
tests_bit b [] = false
tests_bit b ((tested, _) ∷ others) = (b == tested) || tests_bit b others

-- The tests come from the highest bit down.
abbrev pub Below : ℕ → List (ℕ × ℕ) → Type 0
Below b [] = Unit
Below b ((tested, _) ∷ others) = (tested < b) × Below b others

abbrev pub Descends : List (ℕ × ℕ) → Type 0
Descends [] = Unit
Descends ((tested, cleared) ∷ others) = (cleared ≡ tested) × Below tested others × Descends others

-- `b` is the highest bit of the status that the chain tests.
abbrev pub IsHighest : List (ℕ × ℕ) → ℕ → ℕ → Type 0
IsHighest tests status b =
    (tests_bit b tests ≡ true)
    × (test_bit status b ≡ 1)
    × ((c : ℕ) → tests_bit c tests ≡ true → b < c → test_bit status c ≡ 0)

abbrev pub NoneSet : List (ℕ × ℕ) → ℕ → Type 0
NoneSet tests status = (c : ℕ) → tests_bit c tests ≡ true → test_bit status c ≡ 0

Below-tests : (b c : ℕ) (tests : List (ℕ × ℕ)) → Below b tests → tests_bit c tests ≡ true → c < b
Below-tests b c [] below i = absurd (ground arith)
Below-tests b c ((t, _) ∷ others) below i = elim (Bool-cases (c == t)) [
  | inl e ↦ ground arith
  | inr ne ↦ Below-tests b c others below.1 (ground arith)
]

pick_bit : (status b : ℕ) → bit_pick status b ≡ test_bit status b
pick_bit status b = bit_and_low 1 (status / 2 ^ b)

module _ (act : ℕ → List RegWrite) (status : ℕ) where
  -- A descending chain acts on the highest bit that is set; if none is set it writes nothing.
  first_set_lem :
      (tests : List (ℕ × ℕ))
      → Descends tests
      → ((b : ℕ) × IsHighest tests status b × (first_set act tests status ≡ act b))
        ⊎ (NoneSet tests status × (first_set act tests status ≡ []))
  unfolding first_set
  first_set_lem [] d = inr ((λ c i. absurd (ground arith)), refl)
  first_set_lem ((t, cl) ∷ others) d = elim (Bool-cases (bit_pick status t == 0)) [
    | inl clear ↦
        let off : test_bit status t ≡ 0 = ground (arith, pick_bit status t) in
        rw clear (later off (first_set_lem others d.2))
    | inr on ↦
        rw (on, d.0) (inl (t, (ground arith, ground (arith, pick_bit status t), highest), refl))
  ]
    where
      highest : (c : ℕ) → tests_bit c ((t, cl) ∷ others) ≡ true → t < c → test_bit status c ≡ 0
      highest c i lt = elim (Bool-cases (tests_bit c others)) [
        | inl j ↦ absurd (omega (arith, Below-tests t c others d.1 j))
        | inr j ↦ absurd (ground arith)
      ]

      passed :
          test_bit status t ≡ 0
          → (c : ℕ) → tests_bit c ((t, cl) ∷ others) ≡ true
          → (tests_bit c others ≡ true → test_bit status c ≡ 0)
          → test_bit status c ≡ 0
      passed off c i rest = elim (Bool-cases (c == t)) [
        | inl e ↦ let e' : c ≡ t = ground arith in rw e' off
        | inr ne ↦ rest (ground arith)
      ]

      later :
          {out : List RegWrite}
          → test_bit status t ≡ 0
          → ((b : ℕ) × IsHighest others status b × (out ≡ act b))
            ⊎ (NoneSet others status × (out ≡ []))
          → ((b : ℕ) × IsHighest ((t, cl) ∷ others) status b × (out ≡ act b))
            ⊎ (NoneSet ((t, cl) ∷ others) status × (out ≡ []))
      later off (inl (b, (i, on, above), e)) =
          inl (b, (ground arith, on, λ c j lt. passed off c j (λ k. above c k lt)), e)
      later off (inr (none_set, e)) = inr ((λ c j. passed off c j (none_set c)), e)

-- `DMAC_CHx_interrupt_handler` clears the highest of the 25 interrupts it knows that is pending on
-- the channel, by one write of that bit to the channel's clear register; with none pending it
-- writes nothing.
pub channel_interrupt_handler_lem :
    (read : ℕ → ℕ) (channel : ℕ)
    → let status = read (dmac_addr + ch_offset channel 0x088) in
      let writes = channel_interrupt_handler read channel in
      ((b : ℕ) × IsHighest channel_tests status b
        × (writes ≡ reg_write 64 (dmac_addr + ch_offset channel 0x098) (2 ^ b) ∷ []))
      ⊎ (NoneSet channel_tests status × (writes ≡ []))
unfolding channel_interrupt_handler
channel_interrupt_handler_lem read channel =
    first_set_lem (clear_write (dmac_addr + ch_offset channel 0x098))
      (read (dmac_addr + ch_offset channel 0x088)) channel_tests (omega arith)

-- `DMAC_interrupt_handler` calls the handler of the common registers if bit 16 of the status is
-- set, else that of the highest of the eight channels whose bit is set, and else none.
pub interrupt_handler_lem :
    (read : ℕ → ℕ)
    → let status = read (dmac_addr + 0x030) in
      ((test_bit status 16 ≡ 1) × (interrupt_handler read ≡ common_interrupt_handler read))
      ⊎ ((test_bit status 16 ≡ 0)
          × (((c : ℕ) × IsHighest channel_order status c
                × (interrupt_handler read ≡ channel_interrupt_handler read c))
              ⊎ (NoneSet channel_order status × (interrupt_handler read ≡ []))))
unfolding interrupt_handler
interrupt_handler_lem read =
    let status = read (dmac_addr + 0x030) in
    elim (Bool-cases (bit_pick status 16 == 0)) [
      | inl clear ↦
          let off : test_bit status 16 ≡ 0 = ground (arith, pick_bit status 16) in
          rw clear (
            inr (
              off,
              first_set_lem (channel_interrupt_handler read) status channel_order (omega arith),
            ))
      | inr on ↦
          let set_bit : test_bit status 16 ≡ 1 = ground (arith, pick_bit status 16) in
          rw on (inl (set_bit, refl))
    ]
