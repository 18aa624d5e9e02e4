-- ===== src/Fifo/Tests.antt =====
-- The fifo at concrete states.
use venus_scheduler.Prelude.{◌+◌, ◌-◌, ◌≡◌, ◌↔◌, refl, true, List, [], ◌∷◌, arith}
use venus_scheduler.Fifo.{
  Fifo, IdleQueue, max_fifo, fifo_size, fifo_full, put_token, get_token, read_else_token,
  init_queue,
}
use venus_scheduler.Fifo.Contents.{
  IsValid, contents, occupancy, fifo_size_lem, fifo_full_iff, contents-put_token, get_token_lem,
  read_else_token_lem,
}
use venus_scheduler.Fifo.Refine.{Call, put, get, run, run_queue, run_refines}
use venus_scheduler.Fifo.Queue.{put_all, get_all, get_all-put_all}

-- Eight tokens, the reader at index 1.
abbrev wrapped : Fifo
wrapped = record { token = λ i. 100 + i; wptr = 0; rptr = 1 }

wrapped-IsValid : IsValid wrapped
wrapped-IsValid = record { wptr_in = omega arith; rptr_in = omega arith }

-- Two tokens across the end of the array.
abbrev two : Fifo
two = record { token = λ i. 100 + i; wptr = 1; rptr = 8 }

two-IsValid : IsValid two
two-IsValid = record { wptr_in = omega arith; rptr_in = omega arith }

contents-put_token_example : contents (put_token wrapped 7) ≡ []
contents-put_token_example = contents-put_token wrapped-IsValid 7

get_token_lem_test : ((get_token two).0 ≡ 108) × (contents (get_token two).1 ≡ 100 ∷ [])
get_token_lem_test = get_token_lem two-IsValid

fifo_full_iff_test :
    (fifo_full wrapped ≡ true) ↔ ((occupancy wrapped ≡ max_fifo - 1) × (wrapped.rptr ≡ 0))
fifo_full_iff_test = fifo_full_iff wrapped-IsValid

fifo_size_lem_example : fifo_size two ≡ 249
fifo_size_lem_example = fifo_size_lem two-IsValid

read_else_token_lem_test : read_else_token two 1 ≡ 100
read_else_token_lem_test = read_else_token_lem two-IsValid 1 (omega arith)

abbrev calls : List Call
calls = put 5 ∷ get ∷ put 6 ∷ get ∷ get ∷ get ∷ get ∷ []

run_refines_example : run two calls ≡ run_queue (contents two) calls
run_refines_example = run_refines calls two two-IsValid (omega arith, (omega arith, tt))

abbrev some_queue : IdleQueue
some_queue = record { addr = 9; wptr = 3; rptr = 2 }

get_all-put_all_example :
    get_all (put_all (init_queue some_queue) (21 ∷ 22 ∷ 23 ∷ [])) 3 ≡ 23 ∷ 23 ∷ 23 ∷ []
get_all-put_all_example = get_all-put_all some_queue (21 ∷ 22 ∷ []) 23 (omega arith)

-- The two counters of `two` are 1 and 8.
size_test : fifo_size two ≡ 249
unfolding fifo_size
size_test = refl
