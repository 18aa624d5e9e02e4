-- ===== src/Dma/Link.antt =====
-- dma/dma.c: the linked list of descriptors that a transfer is made of, and how it is handed to a
-- channel, without SIMULATE_QEMU. The descriptors stand in a store of their own beside the words of
-- the heap. What the status register reads at each look is an argument, and `none` is an assertion
-- that fails or a wait that these looks do not end.
pub mod Chunks
pub mod Reset
use venus_scheduler.Prelude.{
  ℕ, zero, suc, ◌+◌, ◌-◌, ◌*◌, ◌/◌, ◌%◌, ◌^◌, Option, none, some, List, [], ◌∷◌, ◌==◌,
  if◌then◌else◌, update, ◌>>=◌,
}
use venus_scheduler.Fifo.{null}
use venus_scheduler.Alloc.Block.{Heap}
use venus_scheduler.Alloc.Free.{malloc_lli}
use venus_scheduler.Dma.Phy.{
  RegWrite, dmac_reset, dmac_config, number_of_channels, hw_free_channel, specify_first_lli,
  enable_channel,
}
use venus_scheduler.Dma.Config.{Lli, lli_setup, cfg_config}

-- DMA_MAX_TRANSFER_LENGTH
abbrev pub max_transfer_length : ℕ
max_transfer_length = 16384

-- `msg_t`
pub record Msg : Type 0 where
  pub lli : ℕ
  pub block : ℕ
  pub token_list : Option (List ℕ)

-- The static variables; `none` is a `token_list` that is NULL.
pub record Link : Type 0 where
  pub heap : Heap
  pub llis : ℕ → Lli
  pub head_lli : ℕ
  pub last_lli : ℕ
  pub token_list : Option (List ℕ)
  pub current_block : ℕ
  pub msg_array : ℕ → Msg

-- The loop of `dma_transfer_link` over the chunks left; the result is the last descriptor.
pub link_chunks : ℕ → (dst src left current last : ℕ) → Link → ℕ × Link
link_chunks zero dst src left current last s = (current, s)
link_chunks (suc zero) dst src left current last s =
    (current, record s { llis = lli_setup dst src (left % 2 ^ 32) current current last s.llis })
link_chunks (suc (suc n)) dst src left current last s =
    let (next, h) = malloc_lli s.heap in
    let llis = lli_setup dst src max_transfer_length current next 0 s.llis in
    link_chunks (suc n) dst (src + 4 * max_transfer_length)
      ((left + 2 ^ 64 - max_transfer_length) % 2 ^ 64) next last
      (record s { heap = h; llis = llis })

-- Looking for a free channel until there is one.
await_channel : List ℕ → Option ℕ
await_channel [] = none
await_channel (reg ∷ later) =
    let rest = await_channel later in
    elim (hw_free_channel reg) [
      | none ↦ none
      | some channel ↦ if channel == number_of_channels then rest else some channel
    ]

pub dma_transfer_channel : List ℕ → Link → Option (List RegWrite × Link)
unfolding await_channel
dma_transfer_channel reads s = do
  channel ← await_channel reads
  first ← specify_first_lli s.head_lli channel
  let msg : Msg = record { lli = s.head_lli; block = s.current_block; token_list = s.token_list }
  some (
    cfg_config channel ∷ first ∷ enable_channel channel ∷ [],
    record s { msg_array = update s.msg_array channel msg; head_lli = null; token_list = none },
  )

-- The first descriptor joins the list of earlier ones, or starts it.
join_link : ℕ → Link → Link
join_link current s =
    if s.head_lli == null
    then record s { head_lli = current; token_list = some [] }
    else record s { llis = update s.llis s.last_lli (record (s.llis s.last_lli) { llp = current }) }

add_token : ℕ → Link → Option Link
add_token token s = elim s.token_list [
  | none ↦ none
  | some tokens ↦
      if token == null then some s else some (record s { token_list = some (token ∷ tokens) })
]

-- A NULL block leaves the list open for the next call; any other block sends it off.
pub dma_transfer_link :
    List ℕ → (dst src len block token : ℕ) → Link → Option (List RegWrite × Link)
unfolding join_link add_token
dma_transfer_link reads dst src len block token s = do
  let (current, h) = malloc_lli s.heap
  let total_chunk = len / max_transfer_length + 1
  s ← add_token token (join_link current (record s { heap = h }))
  let (open_last, open_s) = link_chunks total_chunk dst src len current 0 s
  let (_, closed_s) = link_chunks total_chunk dst src len current 1 s
  let sent = dma_transfer_channel reads (record closed_s { current_block = block })
  if block == null then some ([], record open_s { last_lli = open_last }) else sent

-- The writes of `dma_init` and the reads that the polling of the reset leaves. The array of messages
-- is the messages themselves, so that `msg_array_init` has nothing to set.
unfoldable pub dma_init : List ℕ → Option (List RegWrite × List ℕ)
dma_init reads =
    let (request, left) = dmac_reset reads in left >>= λ later. some (request ∷ dmac_config, later)
