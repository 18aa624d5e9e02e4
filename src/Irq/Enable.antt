-- ===== src/Irq/Enable.antt =====
-- `trap_init` of src/trap.c: which interrupts the processor takes. The addresses are those of
-- include/platform.h; what the control registers read before is an argument.
use Prim.Native.Nat.{bit_or}
use venus_scheduler.Prelude.{ℕ, ◌+◌, ◌*◌, ◌^◌, ◌≡◌, ◌≢◌, refl, arith, List, [], ◌∷◌}
use venus_scheduler.Prelude.Bits.{test_bit, test_bit-or, test_bit_self, test_bit_other}

-- A control register of the processor, or a word of memory.
pub data Target : Type 0 where
  mtvec mie mstatus : Target
  memory : ℕ → Target

abbrev pub uart0_irq : ℕ
uart0_irq = 10

abbrev pub plic_base : ℕ
plic_base = 0x0c000000

abbrev pub plic_priority : ℕ → ℕ
plic_priority id = plic_base + id * 4

abbrev pub plic_menable : ℕ → ℕ
plic_menable hart = plic_base + 0x2000 + hart * 0x80

abbrev pub plic_mthreshold : ℕ → ℕ
plic_mthreshold hart = plic_base + 0x200000 + hart * 0x1000

-- MIE_MEIE and MSTATUS_MIE
abbrev pub mie_meie : ℕ
mie_meie = 2 ^ 11

abbrev pub mstatus_mie : ℕ
mstatus_mie = 2 ^ 3

-- The writes, in order.
unfoldable pub trap_init : (trap_vector hart r_mie r_mstatus : ℕ) → List (Target × ℕ)
trap_init trap_vector hart r_mie r_mstatus =
    (mtvec, trap_vector)
    ∷ (memory (plic_priority uart0_irq), 1)
    ∷ (memory (plic_menable hart), 2 ^ uart0_irq)
    ∷ (memory (plic_mthreshold hart), 0)
    ∷ (mie, bit_or r_mie mie_meie)
    ∷ (mstatus, bit_or r_mstatus mstatus_mie)
    ∷ []

-- Setting one bit of a register.
pub bit_or-bit :
    (r k i : ℕ)
    → (test_bit (bit_or r (2 ^ k)) k ≡ 1) × (i ≢ k → test_bit (bit_or r (2 ^ k)) i ≡ test_bit r i)
bit_or-bit r k i = (
  omega (arith, test_bit-or k r (2 ^ k), test_bit_self k),
  λ ne. omega (arith, test_bit-or i r (2 ^ k), test_bit_other k i ne),
)

-- The writes to a target.
abbrev pub values_of : Target → List (Target × ℕ) → List ℕ
values_of t [] = []
values_of mtvec ((mtvec, v) ∷ ws) = v ∷ values_of mtvec ws
values_of mie ((mie, v) ∷ ws) = v ∷ values_of mie ws
values_of mstatus ((mstatus, v) ∷ ws) = v ∷ values_of mstatus ws
values_of t (w ∷ ws) = values_of t ws

-- `trap_init` writes `mie` once and `mstatus` once: bit 11 of the one and bit 3 of the other become
-- 1, and no other bit of the two changes.
pub trap_init_lem :
    (trap_vector hart r_mie r_mstatus : ℕ)
    → (enabled : ℕ) × (status : ℕ) × (values_of mie (trap_init trap_vector hart r_mie r_mstatus)
        ≡ enabled ∷ [])
      × (values_of mstatus (trap_init trap_vector hart r_mie r_mstatus) ≡ status ∷ [])
      × (test_bit enabled 11 ≡ 1)
      × ((i : ℕ) → i ≢ 11 → test_bit enabled i ≡ test_bit r_mie i)
      × (test_bit status 3 ≡ 1)
      × ((i : ℕ) → i ≢ 3 → test_bit status i ≡ test_bit r_mstatus i)
unfolding trap_init
trap_init_lem trap_vector hart r_mie r_mstatus = (
  bit_or r_mie mie_meie,
  bit_or r_mstatus mstatus_mie,
  refl,
  refl,
  (bit_or-bit r_mie 11 0).0,
  λ i ne. (bit_or-bit r_mie 11 i).1 ne,
  (bit_or-bit r_mstatus 3 0).0,
  λ i ne. (bit_or-bit r_mstatus 3 i).1 ne,
)
