-- ===== src/Dma/Tests.antt =====
-- The DMA controller at concrete words.
use venus_scheduler.Prelude.{
  ℕ, ◌+◌, ◌*◌, ◌^◌, ◌<◌, ◌≡◌, ◌⊎◌, arith, if◌then◌else◌, ◌==◌, [], ◌∷◌, some, none,
}
use venus_scheduler.Prelude.Bits.{test_bit}
use venus_scheduler.Dma.Phy.{
  reg_write, dmac_addr, ch_offset, get_free_channel, set_channel_idle, is_channel_free,
}
use venus_scheduler.Dma.Phy.Channels.{get_free_channel_lem, set_channel_idle_lem}
use venus_scheduler.Dma.Interrupt.{
  channel_tests, channel_interrupt_handler, channel_order, common_interrupt_handler,
  interrupt_handler,
}
use venus_scheduler.Dma.Interrupt.Priority.{
  IsHighest, NoneSet, channel_interrupt_handler_lem, interrupt_handler_lem,
}
use venus_scheduler.Dma.Config.{Lli, ctl_config, lli_setup}
use venus_scheduler.Dma.Config.Fields.{bits, ctl_config-fields, block_ts_lem}
use venus_scheduler.Dma.Link.{Link, link_chunks}
use venus_scheduler.Dma.Link.Chunks.{link_chunks_lem}

-- Channels 0, 1 and 3 are busy.
get_free_channel_lem_test :
    (((get_free_channel 11).0 < 8)
      × (test_bit 11 (get_free_channel 11).0 ≡ 0)
      × ((i : ℕ) → i < (get_free_channel 11).0 → test_bit 11 i ≡ 1)
      × ((i : ℕ)
          → i < 32
          → test_bit (get_free_channel 11).1 i
            ≡ (if i == (get_free_channel 11).0 then 1 else test_bit 11 i)))
    ⊎ (((get_free_channel 11).0 ≡ 8)
        × ((i : ℕ) → i < 8 → test_bit 11 i ≡ 1)
        × ((get_free_channel 11).1 ≡ 11))
get_free_channel_lem_test = get_free_channel_lem 11

set_channel_idle_lem_test : is_channel_free (set_channel_idle 11 1) 1 ≡ 1
set_channel_idle_lem_test = set_channel_idle_lem 11 1 1 (omega arith) (omega arith)

-- Two interrupts are pending.
abbrev pending : ℕ → ℕ
pending a = 0x80000001

channel_interrupt_handler_lem_test :
    ((b : ℕ) × IsHighest channel_tests 0x80000001 b
      × (channel_interrupt_handler pending 2
          ≡ reg_write 64 (dmac_addr + ch_offset 2 0x098) (2 ^ b) ∷ []))
    ⊎ (NoneSet channel_tests 0x80000001 × (channel_interrupt_handler pending 2 ≡ []))
channel_interrupt_handler_lem_test = channel_interrupt_handler_lem pending 2

ctl_config-fields_test :
    (bits 63 1 (ctl_config 1) ≡ 1)
    × (bits 62 1 (ctl_config 1) ≡ 1)
    × (bits 48 8 (ctl_config 1) + 1 ≡ 256)
    × (bits 39 8 (ctl_config 1) + 1 ≡ 256)
    × (bits 11 3 (ctl_config 1) ≡ 3)
    × (bits 8 3 (ctl_config 1) ≡ 3)
    × (bits 6 1 (ctl_config 1) ≡ 0)
    × (bits 4 1 (ctl_config 1) ≡ 0)
ctl_config-fields_test = ctl_config-fields 1 (omega arith)

abbrev blank_lli : Lli
blank_lli = record { ctl = 0; llp = 0; block_ts = 0; dar = 0; sar = 0 }

abbrev no_llis : ℕ → Lli
no_llis _ = blank_lli

block_ts_lem_test : (lli_setup 0x20000000 0x80000000 100 64 64 1 no_llis 64).block_ts * 8 + 4 ≡ 100
block_ts_lem_test = block_ts_lem 0x20000000 0x80000000 100 64 64 1 no_llis

abbrev start : Link
start = record {
  heap = record {
    mem = λ _. 0;
    alloc_start = 0;
    alloc_end = 0;
    free_list_head = 0;
    free_list_counter = 0;
  };
  llis = no_llis;
  head_lli = 64;
  last_lli = 0;
  token_list = some [];
  current_block = 0;
  msg_array = λ _. record { lli = 0; block = 0; token_list = none };
}

link_chunks_lem_example :
    (link_chunks 1 0x20000000 0x80000000 100 64 1 start).1.llis
      (link_chunks 1 0x20000000 0x80000000 100 64 1 start).0
    ≡ record {
      ctl = ctl_config 1;
      llp = (link_chunks 1 0x20000000 0x80000000 100 64 1 start).0;
      block_ts = 12;
      dar = 0x20000000;
      sar = 0x80000000;
    }
link_chunks_lem_example = link_chunks_lem 0 0x20000000 0x80000000 100 64 1 start

interrupt_handler_lem_test :
    ((test_bit 0x80000001 16 ≡ 1) × (interrupt_handler pending ≡ common_interrupt_handler pending))
    ⊎ ((test_bit 0x80000001 16 ≡ 0)
        × (((c : ℕ) × IsHighest channel_order 0x80000001 c
              × (interrupt_handler pending ≡ channel_interrupt_handler pending c))
            ⊎ (NoneSet channel_order 0x80000001 × (interrupt_handler pending ≡ []))))
interrupt_handler_lem_test = interrupt_handler_lem pending
