-- ===== src/Fifo.antt =====
-- src/fifo.c and include/fifo.h: the token fifo between actors, and the queue of idle blocks.
-- A token is its address. The array is a function from indices, so that a read or a write keeps
-- its index, also outside the MAXFIFO slots of C.
-- The messages that are printed are left out.
pub mod Contents
pub mod Refine
pub mod Queue
mod Tests
use venus_scheduler.Prelude.{ℕ, ◌+◌, ◌-◌, ◌%◌, Bool, ◌==◌, ltb, if◌then◌else◌, update}

-- MAX_BUFFER + 1 in include/task.h
abbrev pub max_fifo : ℕ
max_fifo = 9

abbrev pub null : ℕ
null = 0

-- `fifo_t`
pub record Fifo : Type 0 where
  pub token : ℕ → ℕ
  pub wptr : ℕ
  pub rptr : ℕ

-- `uint8_t size = wptr - rptr; if (size < 0) size += MAXFIFO;` for both structures
pub pointer_distance : ℕ → ℕ → ℕ
pointer_distance wptr rptr =
    let size = (wptr + 256 - rptr) % 256 in if ltb size 0 then (size + max_fifo) % 256 else size

pub init_fifo : Fifo → Fifo
init_fifo f = record f { wptr = 0; rptr = 0 }

pub fifo_size : Fifo → ℕ
unfolding pointer_distance
fifo_size f = pointer_distance f.wptr f.rptr

pub fifo_full : Fifo → Bool
unfolding fifo_size
fifo_full f = fifo_size f == max_fifo - 1

pub fifo_empty : Fifo → Bool
fifo_empty f = f.wptr == f.rptr

-- A fifo that is full is left as it is.
pub put_token : Fifo → ℕ → Fifo
unfolding fifo_full
put_token f t =
    if fifo_full f
    then f
    else record f { token = update f.token f.wptr t; wptr = (f.wptr + 1) % max_fifo }

-- The token, NULL for an empty fifo, and the fifo without it.
pub get_token : Fifo → ℕ × Fifo
unfolding fifo_empty
get_token f =
    if fifo_empty f
    then (null, f)
    else (f.token f.rptr, record f { rptr = (f.rptr + 1) % max_fifo })

pub read_token : Fifo → ℕ
read_token f = if f.rptr == f.wptr then null else f.token f.rptr

pub read_else_token : Fifo → ℕ → ℕ
read_else_token f dist = if f.rptr == f.wptr then null else f.token ((f.rptr + dist) % max_fifo)

-- `queue_t`: one address, and the two counters of a fifo.
pub record IdleQueue : Type 0 where
  pub addr : ℕ
  pub wptr : ℕ
  pub rptr : ℕ

pub init_queue : IdleQueue → IdleQueue
init_queue q = record q { wptr = 0; rptr = 0 }

pub queue_size : IdleQueue → ℕ
unfolding pointer_distance
queue_size q = pointer_distance q.wptr q.rptr

pub queue_full : IdleQueue → Bool
unfolding queue_size
queue_full q = queue_size q == max_fifo - 1

pub queue_empty : IdleQueue → Bool
queue_empty q = q.wptr == q.rptr

pub put_queue : IdleQueue → ℕ → IdleQueue
unfolding queue_full
put_queue q ptr =
    if queue_full q then q else record q { addr = ptr; wptr = (q.wptr + 1) % max_fifo }

-- `return -1` from a function that returns a `uint32_t`
abbrev pub no_address : ℕ
no_address = 0xffffffff

pub get_queue : IdleQueue → ℕ × IdleQueue
unfolding queue_empty
get_queue q =
    if queue_empty q then (no_address, q) else (q.addr, record q { rptr = (q.rptr + 1) % max_fifo })
