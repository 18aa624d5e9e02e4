-- ===== src/Dma/Phy/Channels.antt =====
-- The busy bits of the simulated controller.
use Prim.Native.Nat.{bit_and}
use venus_scheduler.Prelude.{
  ℕ, zero, suc, ◌+◌, ◌-◌, ◌/◌, ◌^◌, ◌<◌, ◌≤◌, ◌≡◌, refl, Bool, true, ◌&&◌, arith, ◌==◌,
  if◌then◌else◌, Bool-cases, inl, inr, ◌⊎◌,
}
use venus_scheduler.Prelude.Bits.{test_bit, test_bit-or, test_bit-and, bit_and_low}
use venus_scheduler.Dma.Phy.{
  set_channel_busy, set_channel_idle, free_channel_from, get_free_channel, is_channel_free,
}

-- Over a small range a test is checked at every value.
holds_below : ℕ → (ℕ → Bool) → Bool
holds_below zero p = true
holds_below (suc n) p = p n && holds_below n p

holds_at : (n : ℕ) (p : ℕ → Bool) (x : ℕ) → holds_below n p ≡ true → x < n → p x ≡ true
unfolding holds_below
holds_at zero p x h lt = absurd (omega arith)
holds_at (suc n) p x h lt = ground (arith, holds_at n p x)

-- `1 << j` has bit `j` alone, and `~(1 << j)` has every other.
abbrev one_bit : ℕ → ℕ → Bool
one_bit j i = test_bit (2 ^ j) i == (if i == j then 1 else 0)

abbrev other_bits : ℕ → ℕ → Bool
other_bits j i = test_bit (2 ^ 32 - 1 - 2 ^ j) i == (if i == j then 0 else 1)

one_bit_table : holds_below 8 (λ j. holds_below 32 (one_bit j)) ≡ true
unfolding holds_below
one_bit_table = refl

other_bits_table : holds_below 8 (λ j. holds_below 32 (other_bits j)) ≡ true
unfolding holds_below
other_bits_table = refl

one_bit_lem : (j i : ℕ) → j < 8 → i < 32 → test_bit (2 ^ j) i ≡ (if i == j then 1 else 0)
one_bit_lem j i hj hi = ground (
  arith,
  holds_at 32 (one_bit j) i (holds_at 8 (λ j. holds_below 32 (one_bit j)) j one_bit_table hj) hi,
)

other_bits_lem :
    (j i : ℕ) → j < 8 → i < 32 → test_bit (2 ^ 32 - 1 - 2 ^ j) i ≡ (if i == j then 0 else 1)
other_bits_lem j i hj hi = ground (
  arith,
  holds_at 32 (other_bits j) i
      (holds_at 8 (λ j. holds_below 32 (other_bits j)) j other_bits_table hj) hi,
)

-- Marking a channel sets its bit and no other.
test_bit-set_busy :
    (st j i : ℕ)
    → j < 8
    → i < 32
    → test_bit (set_channel_busy st j) i ≡ (if i == j then 1 else test_bit st i)
unfolding set_channel_busy
test_bit-set_busy st j i hj hi = ground (arith, test_bit-or i st (2 ^ j), one_bit_lem j i hj hi)

test_bit-set_idle :
    (st j i : ℕ)
    → j < 8
    → i < 32
    → test_bit (set_channel_idle st j) i ≡ (if i == j then 0 else test_bit st i)
unfolding set_channel_idle
test_bit-set_idle st j i hj hi =
    ground (arith, test_bit-and i st (2 ^ 32 - 1 - 2 ^ j), other_bits_lem j i hj hi)

-- The outcome of a search from channel `from` on: the first idle channel, now busy, or none.
record Found (from st : ℕ) (out : ℕ × ℕ) : Type 0 where
  here : out.0 < 8
  above : from ≤ out.0
  idle : test_bit st out.0 ≡ 0
  busy_before : (i : ℕ) → from ≤ i → i < out.0 → test_bit st i ≡ 1
  marked : (i : ℕ) → i < 32 → test_bit out.1 i ≡ (if i == out.0 then 1 else test_bit st i)

record AllBusy (from st : ℕ) (out : ℕ × ℕ) : Type 0 where
  none_here : out.0 ≡ 8
  busy : (i : ℕ) → from ≤ i → i < 8 → test_bit st i ≡ 1
  unchanged : out.1 ≡ st

-- A channel that is busy is passed over.
passed :
    (from i st : ℕ)
    → test_bit st from ≡ 1
    → (from + 1 ≤ i → test_bit st i ≡ 1)
    → from ≤ i
    → test_bit st i ≡ 1
passed from i st bit rest le = elim (Bool-cases (from == i)) [
  | inl e ↦ let e' : from ≡ i = ground arith in rw (← e') bit
  | inr ne ↦ rest (ground arith)
]

later :
    {from st : ℕ} {out : ℕ × ℕ}
    → test_bit st from ≡ 1
    → Found (from + 1) st out ⊎ AllBusy (from + 1) st out
    → Found from st out ⊎ AllBusy from st out
later {from} {st} bit (inl f) = inl (record {
  here = f.here;
  above = omega (arith, f.above);
  idle = f.idle;
  busy_before = λ i p q. passed from i st bit (λ r. f.busy_before i r q) p;
  marked = f.marked;
})
later {from} {st} bit (inr a) = inr (record {
  none_here = a.none_here;
  busy = λ i p q. passed from i st bit (λ r. a.busy i r q) p;
  unchanged = a.unchanged;
})

search_from :
    (left from st : ℕ)
    → from + left ≡ 8
    → Found from st (free_channel_from left from st)
      ⊎ AllBusy from st (free_channel_from left from st)
unfolding free_channel_from
search_from zero from st e =
    inr (record { none_here = refl; busy = λ i p q. absurd (omega arith); unchanged = refl })
search_from (suc left) from st e = elim (Bool-cases (bit_and (st / 2 ^ from) 0x1 == 0)) [
  | inl free ↦ rw free (
      inl (record {
        here = omega arith;
        above = omega arith;
        idle = ground (arith, bit_and_low 1 (st / 2 ^ from));
        busy_before = λ i p q. absurd (omega arith);
        marked = λ i lt. test_bit-set_busy st from i (omega arith) lt;
      }))
  | inr busy ↦
      let bit : test_bit st from ≡ 1 = ground (arith, bit_and_low 1 (st / 2 ^ from)) in
      rw busy (later bit (search_from left (from + 1) st (omega arith)))
]

-- `get_free_channel` returns the lowest idle channel and sets its busy bit alone; if all eight are
-- busy it returns DMAC_NUMBER_OF_CHANNELS and changes nothing.
pub get_free_channel_lem :
    (st : ℕ)
    → let (index, st') = get_free_channel st in
      ((index < 8)
        × (test_bit st index ≡ 0)
        × ((i : ℕ) → i < index → test_bit st i ≡ 1)
        × ((i : ℕ) → i < 32 → test_bit st' i ≡ (if i == index then 1 else test_bit st i)))
      ⊎ ((index ≡ 8) × ((i : ℕ) → i < 8 → test_bit st i ≡ 1) × (st' ≡ st))
unfolding get_free_channel
get_free_channel_lem st = elim (search_from 8 0 st refl) [
  | inl f ↦ inl (f.here, f.idle, λ i lt. f.busy_before i (omega arith) lt, f.marked)
  | inr a ↦ inr (a.none_here, λ i lt. a.busy i (omega arith) lt, a.unchanged)
]

-- `set_channel_idle` of one of the eight channels makes it free and leaves the others as they are.
pub set_channel_idle_lem :
    (st j i : ℕ)
    → j < 8
    → i < 8
    → is_channel_free (set_channel_idle st j) i ≡ (if i == j then 1 else is_channel_free st i)
unfolding is_channel_free
set_channel_idle_lem st j i hj hi = ground (
  arith,
  test_bit-set_idle st j i hj (omega arith),
  bit_and_low 1 (set_channel_idle st j / 2 ^ i),
  bit_and_low 1 (st / 2 ^ i),
)
