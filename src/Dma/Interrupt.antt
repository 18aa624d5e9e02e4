-- ===== src/Dma/Interrupt.antt =====
-- The interrupt handlers of dma/phy_interface.c. Each reads a status register, and the first of
-- its tests that holds decides what is done; `read` gives what a device address reads.
pub mod Priority
use venus_scheduler.Prelude.{ℕ, ◌+◌, ◌*◌, ◌^◌, List, [], ◌∷◌, ◌==◌, if◌then◌else◌}
use venus_scheduler.Dma.Phy.{RegWrite, reg_write, dmac_addr, ch_offset, bit_pick}

-- The chain `if (bit) …; else if …`: each bit that is tested stands beside the index that is acted
-- on. Without a bit that is set there is a message and no write.
pub first_set : (ℕ → List RegWrite) → List (ℕ × ℕ) → ℕ → List RegWrite
first_set act [] status = []
first_set act ((tested, index) ∷ others) status =
    let rest = first_set act others status in
    if bit_pick status tested == 0 then rest else act index

-- The write that clears one interrupt.
abbrev pub clear_write : (clear_reg cleared : ℕ) → List RegWrite
clear_write clear_reg cleared = reg_write 64 clear_reg (2 ^ cleared) ∷ []

abbrev pub common_tests : List (ℕ × ℕ)
common_tests = (8, 8) ∷ (3, 3) ∷ (2, 2) ∷ (1, 1) ∷ (0, 0) ∷ []

-- `DMAC_CommonReg_interrupt_handler`
pub common_interrupt_handler : (ℕ → ℕ) → List RegWrite
common_interrupt_handler read =
    first_set (clear_write (dmac_addr + 0x038)) common_tests (read (dmac_addr + 0x050))

abbrev pub channel_tests : List (ℕ × ℕ)
channel_tests =
    (31, 31)
    ∷ (30, 30)
    ∷ (29, 29)
    ∷ (28, 28)
    ∷ (27, 27)
    ∷ (21, 21)
    ∷ (20, 20)
    ∷ (19, 19)
    ∷ (18, 18)
    ∷ (17, 17)
    ∷ (16, 16)
    ∷ (14, 14)
    ∷ (13, 13)
    ∷ (12, 12)
    ∷ (11, 11)
    ∷ (10, 10)
    ∷ (9, 9)
    ∷ (8, 8)
    ∷ (7, 7)
    ∷ (6, 6)
    ∷ (5, 5)
    ∷ (4, 4)
    ∷ (3, 3)
    ∷ (1, 1)
    ∷ (0, 0)
    ∷ []

-- `DMAC_CHx_interrupt_handler`
pub channel_interrupt_handler : (ℕ → ℕ) → ℕ → List RegWrite
channel_interrupt_handler read channel_index =
    first_set (clear_write (dmac_addr + ch_offset channel_index 0x098)) channel_tests
      (read (dmac_addr + ch_offset channel_index 0x088))

-- The channels in the order of their tests: the status bit and the channel that is handled.
abbrev pub channel_order : List (ℕ × ℕ)
channel_order = (7, 7) ∷ (6, 6) ∷ (5, 5) ∷ (4, 4) ∷ (3, 3) ∷ (2, 2) ∷ (1, 1) ∷ (0, 0) ∷ []

-- `DMAC_interrupt_handler`
pub interrupt_handler : (ℕ → ℕ) → List RegWrite
interrupt_handler read =
    let status = read (dmac_addr + 0x030) in
    if bit_pick status 16 == 0
    then first_set (channel_interrupt_handler read) channel_order status
    else common_interrupt_handler read
