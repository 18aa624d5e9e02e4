-- ===== src/Sched/Fire/Rules.antt =====
-- The fire rules of src/fire_check.c.
use venus_scheduler.Prelude.{
  ℕ, ◌-◌, ◌≡◌, refl, Bool, true, not, ◌&&◌, List, [], ◌∷◌, arith, ◌==◌, all, any, length,
}
use venus_scheduler.Fifo.{Fifo, max_fifo, fifo_full}
use venus_scheduler.Fifo.Contents.{contents, fifo_empty-length, fifo_full-length}
use venus_scheduler.Sched.State.{Sched}
use venus_scheduler.Sched.Fire.{
  ins, outs, ready_inputs, actor_ready, full_row, full_rows, successor_full, fire_check,
}
use venus_scheduler.Sched.Fire.Take.{AllValid}

abbrev pub AllRowsValid : (ℕ → Fifo) → List (List ℕ) → Type 0
AllRowsValid fifos [] = Unit
AllRowsValid fifos (r ∷ rs) = AllValid fifos r × AllRowsValid fifos rs

abbrev pub has_token : (ℕ → Fifo) → ℕ → Bool
has_token fifos f = not (length (contents (fifos f)) == 0)

-- MAX_BUFFER tokens fill a fifo only if its reader is at index 0.
abbrev pub seems_full : Fifo → Bool
seems_full f = (length (contents f) == max_fifo - 1) && (f.rptr == 0)

abbrev pub has_room : (ℕ → Fifo) → ℕ → Bool
has_room fifos f = not (seems_full (fifos f))

ready_inputs-all :
    (fifos : ℕ → Fifo) (fs : List ℕ)
    → AllValid fifos fs
    → ready_inputs fifos fs ≡ all (has_token fifos) fs
unfolding ready_inputs
ready_inputs-all fifos [] v = refl
ready_inputs-all fifos (f ∷ fs) v =
    ground (arith, fifo_empty-length v.0, ready_inputs-all fifos fs v.1)

full_row-any :
    (fifos : ℕ → Fifo) (flag : Bool) (r : List ℕ)
    → AllValid fifos r
    → full_row fifos flag r ≡ (flag && not (any (has_room fifos) r))
unfolding full_row
full_row-any fifos flag [] v = ground arith
full_row-any fifos flag (f ∷ fs) v =
    ground (arith, fifo_full-length v.0, full_row-any fifos (flag && fifo_full (fifos f)) fs v.1)

full_rows-any :
    (fifos : ℕ → Fifo) (flag : Bool) (rs : List (List ℕ))
    → AllRowsValid fifos rs
    → full_rows fifos flag rs ≡ (flag && not (any (any (has_room fifos)) rs))
unfolding full_rows
full_rows-any fifos flag [] v = ground arith
full_rows-any fifos flag (r ∷ rs) v =
    ground
      (arith, full_row-any fifos flag r v.0, full_rows-any fifos (full_row fifos flag r) rs v.1)

-- An actor whose fifos are all valid passes the fire rules exactly if every input holds a token and
-- some output holds fewer than MAX_BUFFER tokens or has its reader at another index than 0: an
-- output with MAX_BUFFER tokens and its reader at another index counts as having room, so that an
-- actor can fire with all its outputs full. An actor without an output never fires.
pub fire_check_lem :
    (s : Sched) (actor : ℕ)
    → AllValid s.fifos (ins s actor)
    → AllRowsValid s.fifos (outs s actor)
    → fire_check s actor
      ≡ (all (has_token s.fifos) (ins s actor) && any (any (has_room s.fifos)) (outs s actor))
unfolding fire_check actor_ready successor_full
fire_check_lem s actor valid_in valid_out = ground (
  arith,
  ready_inputs-all s.fifos (ins s actor) valid_in,
  full_rows-any s.fifos true (outs s actor) valid_out,
)
