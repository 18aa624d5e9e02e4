-- ===== src/Fifo/Queue.antt =====
-- The queue of idle blocks of src/fifo.c over sequences of calls.
use venus_scheduler.Prelude.{
  ℕ, zero, suc, ◌+◌, ◌<◌, ◌≡◌, refl, List, [], ◌∷◌, ◌++◌, arith, length, ◌-◌,
}
use venus_scheduler.Fifo.{max_fifo, IdleQueue, init_queue, put_queue, get_queue}

pub put_all : IdleQueue → List ℕ → IdleQueue
put_all q [] = q
put_all q (x ∷ xs) = put_all (put_queue q x) xs

pub get_all : IdleQueue → ℕ → List ℕ
get_all q zero = []
get_all q (suc n) = let (x, q') = get_queue q in x ∷ get_all q' n

abbrev pub replicate : ℕ → ℕ → List ℕ
replicate zero x = []
replicate (suc n) x = x ∷ replicate n x

put_all_last :
    (xs : List ℕ) (a : ℕ) (q : IdleQueue)
    → q.rptr ≡ 0
    → q.wptr + length xs < max_fifo - 1
    → put_all q (xs ++ (a ∷ [])) ≡ record q { addr = a; wptr = q.wptr + length xs + 1 }
unfolding put_all put_queue
put_all_last [] a q r h = ground arith
put_all_last (x ∷ xs) a q r h = ground (arith, put_all_last xs a (put_queue q x))

get_all_same :
    (n : ℕ) (q : IdleQueue)
    → q.rptr + n ≡ q.wptr
    → q.wptr < max_fifo
    → get_all q n ≡ replicate n q.addr
unfolding get_all get_queue
get_all_same zero q e h = refl
get_all_same (suc n) q e h = ground (arith, get_all_same n (get_queue q).1)

-- After `xs` and then `a` are put into an initialised queue, at most MAX_BUFFER addresses in all,
-- as many reads as writes return `a` each time: of several idle blocks only the last is kept.
pub get_all-put_all :
    (q : IdleQueue) (xs : List ℕ) (a : ℕ)
    → length xs < max_fifo - 1
    → get_all (put_all (init_queue q) (xs ++ (a ∷ []))) (length xs + 1)
      ≡ replicate (length xs + 1) a
unfolding init_queue
get_all-put_all q xs a h =
    rw (put_all_last xs a (init_queue q) refl (omega arith))
      (get_all_same (length xs + 1) _ (omega arith) (omega arith))
