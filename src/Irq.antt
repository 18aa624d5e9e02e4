-- ===== src/Irq.antt =====
-- src/trap.c (`trap_handler`) and src/external_irq.c: what a trap does, and which handler a key that
-- simulates an interrupt calls. What is printed is left out, and the two handlers are a
-- parameter.
pub mod Decode
pub mod Enable
mod Tests
use Prim.Native.Nat.{bit_and}
use venus_scheduler.Prelude.{
  ℕ, ◌+◌, ◌*◌, ◌^◌, Option, none, some, ◌>>=◌, List, [], ◌∷◌, ◌==◌, if◌then◌else◌,
}

abbrev pub num_clusters : ℕ
num_clusters = 2

abbrev pub num_blocks : ℕ
num_blocks = 4

-- VENUS_CLUSTER_ADDR + CLUSTER_OFFSET(i) + BLOCK_OFFSET(j), the address that `spm_init` gives the
-- block `j` of the cluster `i`
unfoldable pub base_addr : ℕ → ℕ → ℕ
base_addr i j = 0x20000000 + i * 2 ^ 26 + j * 2 ^ 22

-- The call that a key leads to.
pub data Call : Type 0 where
  block_handler : ℕ → ℕ → Call
  dma_transfer_done_handler : ℕ → Call
  unknown : Call

pub key_call : ℕ → Call
key_call c =
    if c == 49
    then block_handler 0 0
    else if c == 50
    then block_handler 0 1
    else if c == 51
    then block_handler 0 2
    else if c == 52
    then block_handler 0 3
    else if c == 53
    then block_handler 1 0
    else if c == 54
    then block_handler 1 1
    else if c == 55
    then block_handler 1 2
    else if c == 56
    then block_handler 1 3
    else if c == 113
    then dma_transfer_done_handler 0
    else if c == 119
    then dma_transfer_done_handler 1
    else if c == 101
    then dma_transfer_done_handler 2
    else if c == 114
    then dma_transfer_done_handler 3
    else if c == 116
    then dma_transfer_done_handler 4
    else if c == 121
    then dma_transfer_done_handler 5
    else if c == 117
    then dma_transfer_done_handler 6
    else if c == 105
    then dma_transfer_done_handler 7
    else unknown

-- A state of the program that the handlers change, and what a call does to it: `none` is a call
-- that never returns, as that of `dma_transfer_done_handler` can.
module _ {ℓ} {S : Type ℓ} (handle : Call → S → Option S) where
  -- The keys are those that `uart_getc` gives before its -1.
  pub external_interrupt_handler : List ℕ → S → Option S
  external_interrupt_handler [] s = some s
  external_interrupt_handler (c ∷ keys) s =
      handle (key_call c) s >>= external_interrupt_handler keys

  -- The interrupts: software (3) and timer (7) do nothing, external (11) handles the keys.
  pub interrupt : List ℕ → ℕ → S → Option S
  interrupt keys code s =
      if code == 3
      then some s
      else if code == 7
      then some s
      else if code == 11
      then external_interrupt_handler keys s
      else some s

  -- The exceptions by their code; most hang in `while(1){}`.
  pub exception : ℕ → S → Option S
  exception code s =
      if code == 0
      then some s
      else if code == 1
      then none
      else if code == 2
      then none
      else if code == 3
      then none
      else if code == 4
      then none
      else if code == 5
      then none
      else if code == 6
      then none
      else if code == 7
      then none
      else if code == 8
      then none
      else if code == 9
      then none
      else if code == 11
      then none
      else if code == 12
      then none
      else if code == 13
      then none
      else if code == 15
      then none
      else some s

  -- The address that a trap returns to, with the state that is left; `none` is a trap that hangs.
  -- `keys` are those that wait at the UART.
  pub trap_handler : List ℕ → ℕ → ℕ → S → Option (ℕ × S)
  trap_handler keys epc cause s =
      let cause_code = bit_and cause 0xfff in
      (if bit_and cause 0x80000000 == 0
        then exception cause_code s
        else interrupt keys cause_code s)
      >>= λ s. some (epc, s)
