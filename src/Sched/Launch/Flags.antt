-- ===== src/Sched/Launch/Flags.antt =====
-- What the flags of a block guard.
use Prim.Native.Nat.{bit_and, bit_or}
use venus_scheduler.Prelude.{
  ℕ, ◌*◌, ◌/◌, ◌≡◌, refl, Bool, true, false, not, arith, ◌==◌, Bool-cases, inl, inr, ◌∙◌, ==_refl,
  ap,
}
use venus_scheduler.Prelude.Bits.{test_bit, test_bit-or, bit_and_lowest, bit_and_low}
use venus_scheduler.Sched.Launch.{
  Blocks, block_infifo, set_block_flag, recycle_result, enqueue_block, block_handler,
}

abbrev in_fifo : ℕ → Blocks → Bool
in_fifo b s = not (bit_and (s.blocks b).flags block_infifo == 0)

bit_and-infifo : (x : ℕ) → bit_and x 2 ≡ test_bit x 1 * 2
bit_and-infifo x = omega (arith, bit_and_lowest x 2, bit_and_low 1 (x / 2))

infifo_set : (x : ℕ) → (bit_and (bit_or x 2) 2 == 0) ≡ false
infifo_set x =
    let here : bit_and (bit_or x 2) 2 ≡ 2 =
      bit_and-infifo (bit_or x 2) ∙ rw (test_bit-or 1 x 2) (omega arith) in
    rw here refl

-- Another flag keeps it.
infifo_kept : (x : ℕ) → bit_and (bit_or x 4) 2 ≡ bit_and x 2
infifo_kept x = bit_and-infifo (bit_or x 4) ∙ rw (test_bit-or 1 x 4, bit_and-infifo x) (omega arith)

in_fifo-enqueue_block : (b : ℕ) (s : Blocks) → in_fifo b (enqueue_block b s) ≡ true
unfolding enqueue_block set_block_flag
in_fifo-enqueue_block b s = elim (Bool-cases (in_fifo b s)) [
  | inl waits ↦ ground arith
  | inr absent ↦ ground (arith, infifo_set (s.blocks b).flags, ==_refl b)
]

in_fifo-recycle_result : (b : ℕ) (s : Blocks) → in_fifo b (recycle_result b s).1 ≡ in_fifo b s
unfolding recycle_result set_block_flag
in_fifo-recycle_result b s = ground (arith, infifo_kept (s.blocks b).flags, ==_refl b)

block_q-recycle_result : (b : ℕ) (s : Blocks) → (recycle_result b s).1.block_q ≡ s.block_q
unfolding recycle_result
block_q-recycle_result b s = ground arith

enqueue_block_again : (b : ℕ) (s : Blocks) → in_fifo b s ≡ true → enqueue_block b s ≡ s
unfolding enqueue_block
enqueue_block_again b s e = ground arith

-- A second call of `block_handler` for a block, right after the first, does not change the queue
-- of idle blocks.
pub block_handler-again :
    (b : ℕ) (s : Blocks)
    → (block_handler b (block_handler b s).1).1.block_q ≡ (block_handler b s).1.block_q
unfolding block_handler
block_handler-again b s =
    let once = enqueue_block b (recycle_result b s).1 in
    let flag : in_fifo b (recycle_result b once).1 ≡ true =
      in_fifo-recycle_result b once ∙ in_fifo-enqueue_block b (recycle_result b s).1 in
    ap (λ (t : Blocks). t.block_q) (enqueue_block_again b (recycle_result b once).1 flag)
    ∙ block_q-recycle_result b once
