-- ===== src/Dma/Config/Fields.antt =====
-- What the configuration words say, field by field.
use venus_scheduler.Prelude.{ℕ, zero, suc, ◌+◌, ◌*◌, ◌/◌, ◌%◌, ◌^◌, ◌<◌, ◌≡◌, refl, arith}
use venus_scheduler.Dma.Config.{
  ctl_config, destination_max_burst_length, source_max_burst_length, destination_transfer_width,
  source_transfer_width, Lli, pow, pow_loop, lli_setup,
}

-- The `width` bits of a word from `low` on.
abbrev pub bits : ℕ → ℕ → ℕ → ℕ
bits low width word = word / 2 ^ low % 2 ^ width

-- For a `lli_last` of 0 or 1, the control word is valid, carries `lli_last`, and carries the burst
-- lengths less one and the widths in fields that hold them whole; both addresses are incremented.
pub ctl_config-fields :
    (lli_last : ℕ)
    → lli_last < 2
    → (bits 63 1 (ctl_config lli_last) ≡ 1)
      × (bits 62 1 (ctl_config lli_last) ≡ lli_last)
      × (bits 48 8 (ctl_config lli_last) + 1 ≡ destination_max_burst_length)
      × (bits 39 8 (ctl_config lli_last) + 1 ≡ source_max_burst_length)
      × (bits 11 3 (ctl_config lli_last) ≡ destination_transfer_width)
      × (bits 8 3 (ctl_config lli_last) ≡ source_transfer_width)
      × (bits 6 1 (ctl_config lli_last) ≡ 0)
      × (bits 4 1 (ctl_config lli_last) ≡ 0)
unfolding ctl_config
ctl_config-fields zero lt = (refl, refl, refl, refl, refl, refl, refl, refl)
ctl_config-fields (suc zero) lt = (refl, refl, refl, refl, refl, refl, refl, refl)
ctl_config-fields (suc (suc n)) lt = absurd (omega arith)

-- A descriptor counts the whole beats of 8 bytes in its length: with the remainder, eight times the
-- count is the length.
pub block_ts_lem :
    (dst src len current next last : ℕ) (llis : ℕ → Lli)
    → (lli_setup dst src len current next last llis current).block_ts * 8 + len % 8 ≡ len
unfolding lli_setup pow pow_loop
block_ts_lem dst src len current next last llis = ground arith
