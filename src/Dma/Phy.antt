-- ===== src/Dma/Phy.antt =====
-- dma/phy_interface.c: which channel is free, and the register writes that start a transfer.
-- A write of a device register is a value of `RegWrite`; what a register reads is an argument.
pub mod Channels
use Prim.Native.Nat.{bit_and, bit_or}
use venus_scheduler.Prelude.{
  ℕ, zero, suc, ◌+◌, ◌-◌, ◌*◌, ◌/◌, ◌%◌, ◌^◌, Option, none, some, List, [], ◌∷◌, ◌==◌,
  if◌then◌else◌,
}

-- A store of `width` bits to a device address.
pub record RegWrite : Type 0 where
  pub width : ℕ
  pub addr : ℕ
  pub value : ℕ

abbrev pub reg_write : ℕ → ℕ → ℕ → RegWrite
reg_write w a v = record { width = w; addr = a; value = v }

-- VENUS_DMAC_ADDR and the offsets of include/dma/offset.h
abbrev pub dmac_addr : ℕ
dmac_addr = 0x10000000

abbrev pub cfg_reg_offset : ℕ
cfg_reg_offset = 0x010

abbrev pub ch_en_reg_offset : ℕ
ch_en_reg_offset = 0x018

abbrev pub rst_reg_offset : ℕ
rst_reg_offset = 0x058

abbrev pub ch_offset : ℕ → ℕ → ℕ
ch_offset channel reg = 0x100 * (channel + 1) + reg

abbrev pub number_of_channels : ℕ
number_of_channels = 8

-- (N >> i) & 1
abbrev pub bit_pick : ℕ → ℕ → ℕ
bit_pick n i = bit_and (n / 2 ^ i) 1

-- The simulated controller keeps one busy bit for each channel.
pub set_channel_busy : ℕ → ℕ → ℕ
set_channel_busy channel_status index = bit_or channel_status (2 ^ index)

unfoldable pub set_channel_idle : ℕ → ℕ → ℕ
set_channel_idle channel_status index = bit_and channel_status (2 ^ 32 - 1 - 2 ^ index)

-- The loop of `get_free_channel` over the channels left, from `index` on.
pub free_channel_from : ℕ → ℕ → ℕ → ℕ × ℕ
free_channel_from zero index channel_status = (number_of_channels, channel_status)
free_channel_from (suc left) index channel_status =
    let rest = free_channel_from left (index + 1) channel_status in
    if bit_and (channel_status / 2 ^ index) 0x1 == 0
    then (index, set_channel_busy channel_status index)
    else rest

-- The index, DMAC_NUMBER_OF_CHANNELS if all are busy, and the new status.
pub get_free_channel : ℕ → ℕ × ℕ
get_free_channel channel_status = free_channel_from number_of_channels 0 channel_status

unfoldable pub is_channel_free : ℕ → ℕ → ℕ
is_channel_free channel_status index =
    if bit_and (channel_status / 2 ^ index) 0x1 == 0 then 1 else 0

-- The loop of `DMAC_get_free_channel` on the hardware.
first_clear_bit : ℕ → ℕ → ℕ → Option ℕ
first_clear_bit zero i reg = none
first_clear_bit (suc left) i reg =
    let rest = first_clear_bit left (i + 1) reg in if bit_pick reg i == 0 then some i else rest

-- `DMAC_get_free_channel` without SIMULATE_QEMU, given what the register at `cfg_reg_offset`
-- reads; `none` would be an index that was never set.
pub hw_free_channel : ℕ → Option ℕ
unfolding first_clear_bit
hw_free_channel ch_en_reg =
    if bit_and ch_en_reg 0xff == 0xff
    then some number_of_channels
    else first_clear_bit number_of_channels 0 ch_en_reg

pub cfg_write : ℕ → ℕ → RegWrite
cfg_write chx_cfg channel = reg_write 64 (dmac_addr + ch_offset channel 0x020) chx_cfg

-- `none` is the assertion that the first descriptor stands at a multiple of 64.
pub specify_first_lli : ℕ → ℕ → Option RegWrite
specify_first_lli head_lli channel =
    if head_lli % 64 == 0
    then some
        (reg_write 64 (dmac_addr + ch_offset channel 0x028) (bit_and head_lli 0xffffffffffffffc0))
    else none

-- CH_EN_WE | CH_EN, both 16 bits wide
pub enable_channel : ℕ → RegWrite
enable_channel channel =
    reg_write 16 (dmac_addr + ch_en_reg_offset)
      (bit_or (2 ^ (channel + 8) % 2 ^ 16) (2 ^ channel % 2 ^ 16))

abbrev pub all_ones : ℕ
all_ones = 0xffffffffffffffff

-- The loop of `DMAC_config` over the channels left, from `i` on.
enable_interrupts : ℕ → ℕ → List RegWrite
enable_interrupts zero i = []
enable_interrupts (suc left) i =
    reg_write 64 (dmac_addr + ch_offset i 0x080) all_ones
    ∷ reg_write 64 (dmac_addr + ch_offset i 0x090) all_ones
    ∷ enable_interrupts left (i + 1)

pub dmac_config : List RegWrite
unfolding enable_interrupts
dmac_config =
    reg_write 64 (dmac_addr + cfg_reg_offset) (bit_or (bit_or 0 (2 ^ 1)) (2 ^ 0))
    ∷ reg_write 64 (dmac_addr + 0x040) all_ones
    ∷ reg_write 64 (dmac_addr + 0x048) all_ones
    ∷ enable_interrupts number_of_channels 0

-- Polling the reset register, over the values that it reads; `none` if it is still set at the last.
unfoldable pub poll_reset : List ℕ → Option (List ℕ)
poll_reset [] = none
poll_reset (reset_reg ∷ later) =
    let rest = poll_reset later in if bit_pick reset_reg 0 == 1 then rest else some later

-- The write of the reset request, and the reads that the polling leaves.
unfoldable pub dmac_reset : List ℕ → RegWrite × Option (List ℕ)
unfolding poll_reset
dmac_reset reads = (reg_write 64 (dmac_addr + rst_reg_offset) (2 ^ 0), poll_reset reads)
