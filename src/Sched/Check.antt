-- ===== src/Sched/Check.antt =====
-- `actor_check` of src/fire_check.c: ready actors are fired on idle blocks. Its loop never ends; the
-- model runs it for a number of rounds.
pub mod Order
mod Tests
use venus_scheduler.Prelude.{
  ℕ, zero, suc, Bool, true, false, ◌&&◌, Option, none, some, List, [], ◌∷◌, ◌++◌, leb, ◌==◌,
  if◌then◌else◌, update,
}
use venus_scheduler.Fifo.{queue_size, get_queue}
use venus_scheduler.Sched.State.{Datum, Sched, Ready}
use venus_scheduler.Sched.Fire.{ready_select}
use venus_scheduler.Sched.Launch.{Transfer, Blocks, bind_block, inform_dma}

-- The actors' fire lists go from the tail, the oldest block, to the head.
pub record Dispatch : Type 0 where
  pub sched : Sched
  pub data_of : ℕ → Datum
  pub pool : Blocks
  pub fire_lists : ℕ → List ℕ

-- An actor that was fired on a block, with the transfers asked for.
pub record Fired : Type 0 where
  pub actor : ℕ
  pub block : ℕ
  pub transfers : List Transfer

-- `insert` at the head of the list
pub add_firelist : (actor block : ℕ) → (ℕ → List ℕ) → ℕ → List ℕ
add_firelist actor block fire_lists = update fire_lists actor (fire_lists actor ++ (block ∷ []))

pub actor_fire : ℕ → Ready → Dispatch → Fired × Dispatch
actor_fire block ready s = (
  record {
    actor = ready.actor_addr;
    block = block;
    transfers = inform_dma s.sched s.data_of (s.pool.blocks block).base_addr block ready;
  },
  record s {
    pool = record s.pool {
      blocks = update s.pool.blocks block (bind_block (s.pool.blocks block) ready.actor_addr);
    };
    fire_lists = add_firelist ready.actor_addr block s.fire_lists;
  },
)

-- With the actor selected: it is fired, and `ready_free` takes it off the list.
pub fire_selected : ℕ → Option (Ready × List Ready) → Dispatch → List Fired × Dispatch
fire_selected block none s = ([], s)
fire_selected block (some (ready, left)) s =
    let (fired, s1) = actor_fire block ready s in
    (fired ∷ [], record s1 { sched = record s1.sched { ready_l = left } })

abbrev pub is_ready : List Ready → Bool
is_ready [] = false
is_ready (r ∷ rs) = true

-- One round of the loop.
pub check_round : Dispatch → List Fired × Dispatch
check_round s =
    let (block, block_q) = get_queue s.pool.block_q in
    let s1 = record s { pool = record s.pool { block_q = block_q } } in
    let fires = fire_selected block (ready_select (s.pool.blocks block) s.sched.ready_l) s1 in
    if leb 1 (queue_size s.pool.block_q) && is_ready s.sched.ready_l then fires else ([], s)

pub actor_check : ℕ → Dispatch → List Fired × Dispatch
actor_check zero s = ([], s)
actor_check (suc rounds) s =
    let (fired, s1) = check_round s in
    let (later, s2) = actor_check rounds s1 in (fired ++ later, s2)
