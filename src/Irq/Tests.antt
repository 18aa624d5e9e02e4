-- ===== src/Irq/Tests.antt =====
-- Keys and traps at concrete words.
use venus_scheduler.Prelude.{ℕ, ◌+◌, ◌≤◌, ◌^◌, ◌≡◌, arith, List, [], ◌∷◌, Option, some, ◌>>=◌}
use venus_scheduler.Irq.{
  base_addr, block_handler, key_call, external_interrupt_handler, trap_handler, Call,
}
use venus_scheduler.Irq.Decode.{key_call-block, base_addr-apart, trap_handler_lem}

key_call-block_test : key_call 54 ≡ block_handler 1 1
key_call-block_test = key_call-block 1 1 (omega arith) (omega arith)

base_addr-apart_test : (◌≡◌ {A = ℕ} 1 1) × (◌≡◌ {A = ℕ} 3 3) × (base_addr 1 3 + 2 ^ 22 ≤ 2 ^ 32)
base_addr-apart_test =
    base_addr-apart 1 3 1 3 (omega arith) (omega arith) (omega arith) (omega arith) (omega arith)
      (omega arith)

-- Handlers that keep a list of the calls.
abbrev note_call : Call → List Call → Option (List Call)
note_call call calls = some (call ∷ calls)

trap_handler_lem_test : trap_handler note_call (49 ∷ 113 ∷ []) 0x80000000 0x8000000b [] ≡ (
    external_interrupt_handler note_call (49 ∷ 113 ∷ []) [] >>= λ calls. some (0x80000000, calls))
trap_handler_lem_test = trap_handler_lem note_call (49 ∷ 113 ∷ []) 0x80000000 0x8000000b []
