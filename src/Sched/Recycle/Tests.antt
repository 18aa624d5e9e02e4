-- ===== src/Sched/Recycle/Tests.antt =====
-- Data with their tokens, and three linked descriptors.
use venus_scheduler.Prelude.{ℕ, ◌≡◌, some, [], ◌∷◌, arith, ◌==◌, ◌||◌, if◌then◌else◌}
use venus_scheduler.Dma.Config.{Lli}
use venus_scheduler.Sched.State.{Token}
use venus_scheduler.Sched.Recycle.{Garbage, recycle_garbage, free_transfer}
use venus_scheduler.Sched.Recycle.Counts.{times, recycle_garbage_lem}
use venus_scheduler.Sched.Recycle.Descriptors.{free_transfer_lem}

-- The tokens 10 and 20 carry the datum 40, the others the datum 50.
abbrev tokens : ℕ → Token
tokens t = record { datum = if (t == 10) || (t == 20) then 40 else 50; attr = 0 }

abbrev start : Garbage
start = record { data_of = λ d. record { ptr = 900; cnt = 2 }; freed_data = []; freed_tokens = [] }

recycle_garbage_lem_example :
    (times 40 (recycle_garbage tokens (10 ∷ 30 ∷ 20 ∷ []) start).freed_data ≡ 1)
    × (((recycle_garbage tokens (10 ∷ 30 ∷ 20 ∷ []) start).data_of 40).cnt ≡ 1)
    × ((recycle_garbage tokens (10 ∷ 30 ∷ 20 ∷ []) start).freed_tokens ≡ 10 ∷ 30 ∷ 20 ∷ [])
recycle_garbage_lem_example =
    recycle_garbage_lem tokens 40 (10 ∷ 30 ∷ 20 ∷ []) start (omega arith) (omega arith)
      (omega arith)

-- 64 → 128 → 192
abbrev llis : ℕ → Lli
llis a = record { ctl = 0; llp = if a == 64 then 128 else 192; block_ts = 0; dar = 0; sar = 0 }

free_transfer_lem_example : free_transfer 5 llis 64 ≡ some (64 ∷ 128 ∷ [])
free_transfer_lem_example = free_transfer_lem 4 llis 64
