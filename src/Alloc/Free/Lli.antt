-- ===== src/Alloc/Free/Lli.antt =====
-- Where `malloc_LLI` places a descriptor, and how `free_LLI` finds its block again.
use venus_scheduler.Prelude.{
  ℕ, ◌+◌, ◌-◌, ◌%◌, ◌^◌, ◌<◌, ◌≤◌, ◌≡◌, arith, Bool-cases, inl, inr, ◌==◌,
}
use venus_scheduler.Prelude.Bits.{bit_and_low}
use venus_scheduler.Alloc.Block.{Heap, sub32, lli_size, boundary_size}
use venus_scheduler.Alloc.Free.{lli_request, align_lli, free, free_lli}

-- For a payload at a multiple of 8 that ends 128 bytes below 2^32, the address that is returned is
-- a multiple of 64 not below the payload, and a descriptor of 64 bytes there with 8 bytes for the
-- boundary words stays within the request.
pub align_lli-fits :
    (payload : ℕ) (s : Heap)
    → payload % 8 ≡ 0
    → payload < 2 ^ 32 - 128
    → let p = (align_lli payload (payload % lli_size) s).0 in
      (p % lli_size ≡ 0)
      × (payload ≤ p)
      × (p + lli_size + boundary_size ≤ payload + lli_request (payload % lli_size))
unfolding align_lli lli_request
align_lli-fits payload s h lt = ground arith

-- For a payload at a multiple of 8, not 0 and 128 bytes below 2^32, whose header is odd,
-- `free_LLI` of the address that `align_lli` returned does what `free` of the payload does.
pub free_lli-align_lli :
    (payload : ℕ) (s : Heap)
    → payload % 8 ≡ 0
    → 8 ≤ payload
    → payload < 2 ^ 32 - 128
    → s.mem (payload - 4) % 2 ≡ 1
    → let (p, s') = align_lli payload (payload % lli_size) s in free_lli p s' ≡ free payload s'
unfolding align_lli free_lli
free_lli-align_lli payload s h pos lt flag = elim (Bool-cases (payload % 64 == 0)) [
  | inl e ↦ ground (arith, bit_and_low 1 (s.mem (payload - 4)), here)
  | inr e ↦ ground (arith, bit_and_low 1 payload)
]
  where
    here : sub32 payload 4 ≡ payload - 4
    here = omega arith
