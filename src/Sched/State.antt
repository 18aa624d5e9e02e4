-- ===== src/Sched/State.antt =====
-- What the scheduler works on: include/fifo.h, include/actor.h, include/block.h, include/task.h.
-- Fifos, tokens and actors stand at addresses, NULL being 0. A `list_t` whose nodes are only
-- visited, inserted at the head and removed is the list of their items, from head to tail; what
-- src/linked_list.c allocates for its nodes is left out, and so is a failing allocation.
use venus_scheduler.Prelude.{ℕ, List, [], ◌∷◌, ◌==◌, if◌then◌else◌}
use venus_scheduler.Fifo.{Fifo, null}

-- PSEUDO_TOKEN_LABEL, which stands in a fifo in place of a token's address
abbrev pub pseudo_token : ℕ
pseudo_token = 666

abbrev pub scalar_label : ℕ
scalar_label = 0

abbrev pub max_in : ℕ
max_in = 11

abbrev pub max_out : ℕ
max_out = 11

abbrev pub max_res : ℕ
max_res = 11

-- `data_t`
pub record Datum : Type 0 where
  pub ptr : ℕ
  pub cnt : ℕ

-- `token_t`
pub record Token : Type 0 where
  pub datum : ℕ
  pub attr : ℕ

-- `actor_t`: the arrays `in[MAXIN]` and `out[MAXRES][MAXOUT]` slot by slot. Its two lists belong to
-- the delivery of results.
pub record Actor : Type 0 where
  pub inputs : List ℕ
  pub outputs : List (List ℕ)
  pub task_addr : ℕ
  pub task_len : ℕ
  pub dynamic : ℕ

-- `ready_t`
pub record Ready : Type 0 where
  pub actor_addr : ℕ
  pub dep_list : List ℕ

-- `block_t`
pub record Block : Type 0 where
  pub flags : ℕ
  pub base_addr : ℕ
  pub actor : ℕ

pub record Sched : Type 0 where
  pub fifos : ℕ → Fifo
  pub tokens : ℕ → Token
  pub actors : ℕ → Actor
  pub actor_l : List ℕ
  pub ready_l : List Ready

-- The slots that a loop `for (i = 0; a[i] != NULL; i++)` visits. An array with no NULL is read past
-- its end in C; here the loop stops at its end.
abbrev pub row : List ℕ → List ℕ
row [] = []
row (x ∷ xs) = if x == null then [] else x ∷ row xs

-- The slots of `for (i = 0; a[i][0] != NULL; i++) for (j = 0; a[i][j] != NULL; j++)`, in order.
abbrev pub rows : List (List ℕ) → List (List ℕ)
rows [] = []
rows ([] ∷ rs) = []
rows ((x ∷ xs) ∷ rs) = if x == null then [] else row (x ∷ xs) ∷ rows rs
