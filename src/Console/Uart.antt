-- ===== src/Console/Uart.antt =====
-- src/uart.c. A byte is sent once the line is idle: what the status register reads, one value after
-- the other, is an argument. `uart_init` and `uart_putc` are those of the 16550, `soc_uart_init` and
-- `soc_uart_putc` those of a build with TEST_VENUS_UART.
use Prim.Native.Nat.{bit_and, bit_or}
use venus_scheduler.Prelude.{
  ℕ, zero, suc, ◌+◌, ◌-◌, ◌%◌, ◌^◌, Bool, not, Option, none, some, List, [], ◌∷◌, ◌==◌, ltb,
  if◌then◌else◌, ◌>>=◌,
}

-- The registers and the values that are written to them, in order.
abbrev pub Writes : Type 0
Writes = List (ℕ × ℕ)

-- The registers of the 16550 are those at offsets 0 (THR and DLL), 1 (IER and DLM) and 3 (LCR).
unfoldable pub uart_init : ℕ → ℕ → Writes
uart_init lcr ier =
    (1, 0) ∷ (3, bit_or lcr (2 ^ 7)) ∷ (0, 3) ∷ (1, 0) ∷ (3, bit_or 0 3) ∷ (1, bit_or ier 1) ∷ []

unfoldable pub soc_uart_init : Writes
soc_uart_init =
    (0x10, 0) ∷ (0x0c, 0x80) ∷ (0x00, 0x1b) ∷ (0x04, 0) ∷ (0x0c, 3) ∷ (0x08, 1) ∷ (0x04, 0x81) ∷ []

unfoldable pub is_idle : ℕ → Bool
is_idle lsr = not (bit_and lsr (2 ^ 5) == 0)

abbrev pub uart_fifo_depth : ℕ
uart_fifo_depth = 60

unfoldable pub has_fifo_room : ℕ → Bool
has_fifo_room tfl = ltb tfl uart_fifo_depth

-- The byte that is sent and the values of the status register that are left.
module _ (ready : ℕ → Bool) where
  unfoldable pub put_when : ℕ → List ℕ → Option (ℕ × List ℕ)
  put_when ch [] = none
  put_when ch (status ∷ later) =
      let rest = put_when ch later in if ready status then some (ch, later) else rest

unfoldable pub uart_putc : ℕ → List ℕ → Option (ℕ × List ℕ)
uart_putc = put_when is_idle

unfoldable pub soc_uart_putc : ℕ → List ℕ → Option (ℕ × List ℕ)
soc_uart_putc = put_when has_fifo_room

module _ (putc : ℕ → List ℕ → Option (ℕ × List ℕ)) where
  unfoldable pub uart_puts : ℕ → (ℕ → ℕ) → ℕ → List ℕ → Option (List ℕ × List ℕ)
  uart_puts zero mem s status = none
  uart_puts (suc fuel) mem s status =
      let rest = putc (mem s) status >>= λ sent.
      uart_puts fuel mem (s + 1) sent.1 >>= λ more. some (sent.0 ∷ more.0, more.1) in
      if mem s == 0 then some ([], status) else rest

-- What the receiver holds, or -1.
unfoldable pub uart_getc : ℕ → ℕ → ℕ
uart_getc lsr rhr = if not (bit_and lsr 1 == 0) then rhr else 2 ^ 32 - 1

unfoldable pub uart_recvc : ℕ → ℕ
uart_recvc rbr = rbr % 2 ^ 8
