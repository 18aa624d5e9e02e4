-- ===== src/Prelude/Bits.antt =====
-- The bit operators of C on native numbers: single bits, low masks, disjoint fields.
use Prim.Native.Nat.{
  ℕ, zero, suc, ◌+◌, ◌-◌, ◌*◌, ◌/◌, ◌%◌, ◌^◌, ◌≤◌, ◌<◌, min, max, bit_and, bit_or, digits,
}
use Prim.Native.Nat.{bit_and-bitwise, bit_or-bitwise}
use mathlib.Core.Path.{◌≡◌, refl, ap, ◌∙◌}
use mathlib.Core.Logic.{◌≢◌}
use native.Mathlib.Nat.{
  pow-suc, pow-succ', one-le-pow, mod_def, mul-div-le, mul_assoc, div-div-eq-div-mul, le_refl,
}
use native.Mathlib.Omega.{arith}

-- Bit `i` of a word.
abbrev pub test_bit : ℕ → ℕ → ℕ
test_bit x i = x / 2 ^ i % 2

-- One unit of fuel more than the number needs changes nothing.
module _ (z : ℕ → ℕ) (f : ℕ → ℕ → ℕ) where
  more_fuel : (n a b : ℕ) → a ≤ n → digits z f (suc n) a b ≡ digits z f n a b
  more_fuel zero zero b h = refl
  more_fuel zero (suc a) b h = absurd (omega arith)
  more_fuel (suc n) zero b h = refl
  more_fuel (suc n) (suc a) b h =
      ap (λ (r : ℕ). r * 2 + f (suc a % 2) (b % 2)) (more_fuel n (suc a / 2) (b / 2) (omega arith))

  raise_fuel : (d n m a b : ℕ) → a ≤ n → m ≡ n + d → digits z f m a b ≡ digits z f n a b
  raise_fuel zero n m a b h e = ap (λ k. digits z f k a b) (omega arith)
  raise_fuel (suc d) n m a b h e =
      raise_fuel d (suc n) m a b (omega arith) (omega arith) ∙ more_fuel n a b h

  digits_step :
      (a b : ℕ)
      → digits z f (suc a) (suc a) b
        ≡ digits z f (suc a / 2) (suc a / 2) (b / 2) * 2 + f (suc a % 2) (b % 2)
  digits_step a b =
      ap (λ (r : ℕ). r * 2 + f (suc a % 2) (b % 2))
        (raise_fuel (a - suc a / 2) (suc a / 2) a (suc a / 2) (b / 2) (le_refl _) (omega arith))

pub bit_and_lowest : (a b : ℕ) → bit_and a b ≡ bit_and (a / 2) (b / 2) * 2 + min (a % 2) (b % 2)
bit_and_lowest zero b = simp bit_and-bitwise (omega arith)
bit_and_lowest (suc a) b = simp bit_and-bitwise (digits_step (λ _. 0) min a b)

pub bit_or_lowest : (a b : ℕ) → bit_or a b ≡ bit_or (a / 2) (b / 2) * 2 + max (a % 2) (b % 2)
bit_or_lowest zero b = simp bit_or-bitwise (omega arith)
bit_or_lowest (suc a) b = simp bit_or-bitwise (digits_step (λ y. y) max a b)

zero-bit_or : (b : ℕ) → bit_or 0 b ≡ b
zero-bit_or b = bit_or-bitwise 0 b

zero-bit_and : (b : ℕ) → bit_and 0 b ≡ 0
zero-bit_and b = bit_and-bitwise 0 b

bit_and-zero_of_le : (n a : ℕ) → a ≤ n → bit_and a 0 ≡ 0
bit_and-zero_of_le n zero h = zero-bit_and 0
bit_and-zero_of_le zero (suc a) h = absurd (omega arith)
bit_and-zero_of_le (suc n) (suc a) h =
    omega (arith, bit_and_lowest (suc a) 0, bit_and-zero_of_le n (suc a / 2) (omega arith))

bit_or-zero_of_le : (n a : ℕ) → a ≤ n → bit_or a 0 ≡ a
bit_or-zero_of_le n zero h = zero-bit_or 0
bit_or-zero_of_le zero (suc a) h = absurd (omega arith)
bit_or-zero_of_le (suc n) (suc a) h =
    omega (arith, bit_or_lowest (suc a) 0, bit_or-zero_of_le n (suc a / 2) (omega arith))

pub bit_or-zero : (a : ℕ) → bit_or a 0 ≡ a
bit_or-zero a = bit_or-zero_of_le a a (le_refl a)

pub bit_and-zero : (a : ℕ) → bit_and a 0 ≡ 0
bit_and-zero a = bit_and-zero_of_le a a (le_refl a)

-- `x & (2^k - 1)` is a remainder.
mod-pow-suc : (k a : ℕ) → a % 2 ^ suc k ≡ a / 2 % 2 ^ k * 2 + a % 2
mod-pow-suc k a =
    rw (mod_def a (2 ^ suc k), mod_def (a / 2) (2 ^ k), pow-succ', ← div-div-eq-div-mul)
      (omega (
        arith,
        mul-div-le (a / 2) (2 ^ k),
        ap (λ (t : ℕ). t) (mul_assoc 2 (2 ^ k) (a / 2 / 2 ^ k)),
      ))

half_mask : (k : ℕ) → (2 ^ suc k - 1) / 2 ≡ 2 ^ k - 1
half_mask k = omega (arith, pow-suc 2 k, one-le-pow k 2)

pub bit_and_low : (k a : ℕ) → bit_and a (2 ^ k - 1) ≡ a % 2 ^ k
bit_and_low zero a = omega (arith, bit_and-zero a)
bit_and_low (suc k) a =
    bit_and_lowest a (2 ^ suc k - 1)
    ∙ rw (half_mask k, bit_and_low k (a / 2))
        (omega (arith, mod-pow-suc k a, pow-suc 2 k, one-le-pow k 2))

test_bit-suc : (x i : ℕ) → test_bit x (suc i) ≡ test_bit (x / 2) i
test_bit-suc x i = rw (pow-succ', ← div-div-eq-div-mul) refl

half-bit_or : (a b : ℕ) → bit_or a b / 2 ≡ bit_or (a / 2) (b / 2)
half-bit_or a b = omega (arith, bit_or_lowest a b)

half-bit_and : (a b : ℕ) → bit_and a b / 2 ≡ bit_and (a / 2) (b / 2)
half-bit_and a b = omega (arith, bit_and_lowest a b)

pub test_bit-or : (i a b : ℕ) → test_bit (bit_or a b) i ≡ max (test_bit a i) (test_bit b i)
test_bit-or zero a b = omega (arith, bit_or_lowest a b)
test_bit-or (suc i) a b =
    rw (test_bit-suc (bit_or a b) i, test_bit-suc a i, test_bit-suc b i, half-bit_or)
      (test_bit-or i (a / 2) (b / 2))

pub test_bit-and : (i a b : ℕ) → test_bit (bit_and a b) i ≡ min (test_bit a i) (test_bit b i)
test_bit-and zero a b = omega (arith, bit_and_lowest a b)
test_bit-and (suc i) a b =
    rw (test_bit-suc (bit_and a b) i, test_bit-suc a i, test_bit-suc b i, half-bit_and)
      (test_bit-and i (a / 2) (b / 2))

-- The three low bits of a boundary word are flags, the others a size that is a multiple of eight.
pub bit_or_flags : (r m : ℕ) → r < 8 → bit_or r (8 * m) ≡ r + 8 * m
bit_or_flags r m h = omega (
  arith,
  bit_or_lowest r (8 * m),
  bit_or_lowest (r / 2) (8 * m / 2),
  bit_or_lowest (r / 2 / 2) (8 * m / 2 / 2),
  top,
)
  where
    none_left : r / 2 / 2 / 2 ≡ 0
    none_left = omega arith

    shifted : 8 * m / 2 / 2 / 2 ≡ m
    shifted = omega arith

    top : bit_or (r / 2 / 2 / 2) (8 * m / 2 / 2 / 2) ≡ m
    top = rw (none_left, shifted) (zero-bit_or m)

-- `x & 0xFFFFFFF8` for a 32-bit word.
pub bit_and_size : (x : ℕ) → x < 2 ^ 32 → bit_and x 0xfffffff8 ≡ x / 8 * 8
bit_and_size x h = omega (
  arith,
  bit_and_lowest x 0xfffffff8,
  bit_and_lowest (x / 2) 0x7ffffffc,
  bit_and_lowest (x / 2 / 2) 0x3ffffffe,
  bit_and_low 29 (x / 2 / 2 / 2),
)

-- `x & 0xFFFFFFFE` for a 32-bit word.
pub bit_and_even : (x : ℕ) → x < 2 ^ 32 → bit_and x 0xfffffffe ≡ x / 2 * 2
bit_and_even x h = omega (arith, bit_and_lowest x 0xfffffffe, bit_and_low 31 (x / 2))

-- Adding the flag bit to a word whose bit 0 is clear.
pub bit_or_even : (m b : ℕ) → b < 2 → bit_or (m * 2) b ≡ m * 2 + b
bit_or_even m b h = omega (arith, bit_or_lowest (m * 2) b, top)
  where
    none_left : b / 2 ≡ 0
    none_left = omega arith

    shifted : m * 2 / 2 ≡ m
    shifted = omega arith

    top : bit_or (m * 2 / 2) (b / 2) ≡ m
    top = rw (none_left, shifted) (bit_or-zero m)

test_bit-zero : (i : ℕ) → test_bit 0 i ≡ 0
test_bit-zero zero = refl
test_bit-zero (suc i) = test_bit-suc 0 i ∙ test_bit-zero i

-- `1 << k` has bit `k` alone.
pub test_bit_self : (k : ℕ) → test_bit (2 ^ k) k ≡ 1
test_bit_self zero = refl
test_bit_self (suc k) =
    let half : 2 ^ suc k / 2 ≡ 2 ^ k = omega (arith, pow-suc 2 k) in
    test_bit-suc (2 ^ suc k) k ∙ rw half (test_bit_self k)

pub test_bit_other : (k i : ℕ) → i ≢ k → test_bit (2 ^ k) i ≡ 0
test_bit_other zero zero ne = absurd (ne refl)
test_bit_other zero (suc i) ne = test_bit-suc 1 i ∙ test_bit-zero i
test_bit_other (suc k) zero ne = omega (arith, pow-suc 2 k)
test_bit_other (suc k) (suc i) ne =
    let half : 2 ^ suc k / 2 ≡ 2 ^ k = omega (arith, pow-suc 2 k) in
    test_bit-suc (2 ^ suc k) i ∙ rw half (test_bit_other k i (omega arith))
