-- ===== src/Dma/Config.antt =====
-- dma/chx_cfg.c, dma/chx_ctl.c and dma/lli_create.c: the words that configure a channel and the
-- descriptors of a transfer.
pub mod Fields
use Prim.Native.Nat.{bit_or}
use venus_scheduler.Prelude.{ℕ, zero, suc, ◌+◌, ◌-◌, ◌*◌, ◌/◌, ◌%◌, ◌^◌, update}
use venus_scheduler.Dma.Phy.{RegWrite, cfg_write}

-- `(uint64_t)N << i`
abbrev pub field : ℕ → ℕ → ℕ
field n i = n * 2 ^ i % 2 ^ 64

abbrev pub destination_max_burst_length : ℕ
destination_max_burst_length = 256

abbrev pub source_max_burst_length : ℕ
source_max_burst_length = 256

-- AXI4_BURST_SIZE_8_BYTE
abbrev pub destination_transfer_width : ℕ
destination_transfer_width = 3

abbrev pub source_transfer_width : ℕ
source_transfer_width = 3

-- The word that `cfg_config` writes, its fields from bit 63 down; those that are 0 are left out.
pub chx_cfg : ℕ
chx_cfg = bit_or (bit_or (bit_or (field 1 36) (field 1 35)) (field 3 2)) (field 3 0)

pub cfg_config : ℕ → RegWrite
cfg_config free_channel_index = cfg_write chx_cfg free_channel_index

-- The fields of `CTL_config` from bit 63 down; those that are 0 are left out.
unfoldable pub ctl_config : ℕ → ℕ
ctl_config lli_last = bit_or (field 1 63) (
    bit_or (field lli_last 62) (
      bit_or (field (destination_max_burst_length - 1) 48) (
        bit_or (field 1 47) (
          bit_or (field (source_max_burst_length - 1) 39) (
            bit_or (field 1 38) (
              bit_or (field 1 30) (
                bit_or (field 2 18) (
                  bit_or (field 2 14) (
                    bit_or (field destination_transfer_width 11)
                      (field source_transfer_width 8))))))))))

-- `result` is a `uint32_t`.
unfoldable pub pow_loop : ℕ → ℕ → ℕ → ℕ
pow_loop base zero result = result
pow_loop base (suc left) result = pow_loop base left (result * base % 2 ^ 32)

unfoldable pub pow : ℕ → ℕ → ℕ
pow base power = pow_loop base power 1

-- `lli_t`, without the words that are always 0.
pub record Lli : Type 0 where
  pub ctl : ℕ
  pub llp : ℕ
  pub block_ts : ℕ
  pub dar : ℕ
  pub sar : ℕ

-- The descriptors by their address.
unfoldable pub lli_setup : ℕ → ℕ → ℕ → ℕ → ℕ → ℕ → (ℕ → Lli) → ℕ → Lli
lli_setup destination_addr source_addr transfer_length_byte current_lli next_lli lli_last llis =
    update llis current_lli (record {
      ctl = ctl_config lli_last;
      llp = next_lli;
      block_ts = transfer_length_byte / pow 2 source_transfer_width;
      dar = destination_addr;
      sar = source_addr;
    })
