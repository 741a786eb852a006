-- ===== src/Base/Masks.antt =====
-- Laws of `and` with masks and of `or` with fields, from the digit recursion.
use Prim.Native.Nat.{ℕ, zero, suc, ◌+◌, ◌-◌, ◌*◌, ◌/◌, ◌%◌, ◌^◌, ◌≤◌, ◌<◌, min, max}
use Prim.Native.Nat.{bit_and, bit_or, bit_xor}
use Prim.Native.Nat.{bit_and-bitwise, bit_or-bitwise}
use mathlib.Core.Path.{◌≡◌, refl, ap}
use native.Mathlib.Nat.{le_refl, one-le-pow}
use native.Mathlib.Nat.{mod-one}
use native.Mathlib.Omega.{arith}
use timeseries_database.Base.Bits.{lowest_digit, xor-zero, xor_step, mod_pow-suc, pow-double}

and-zero_fuel : (n a : ℕ) → a ≤ n → bit_and a 0 ≡ 0
and-zero_fuel n zero h = refl
and-zero_fuel zero (suc a) h = absurd (omega arith)
and-zero_fuel (suc n) (suc a) h = omega (
  arith,
  bit_and-bitwise (suc a) 0,
  bit_and-bitwise (suc a / 2) 0,
  lowest_digit (λ y. 0) min a 0,
  and-zero_fuel n (suc a / 2) (omega arith),
)

pub and_step : (a b : ℕ) → bit_and a b ≡ bit_and (a / 2) (b / 2) * 2 + min (a % 2) (b % 2)
and_step zero b = omega (arith, bit_and-bitwise 0 b, bit_and-bitwise 0 (b / 2))
and_step (suc a) b = omega (
  arith,
  bit_and-bitwise (suc a) b,
  bit_and-bitwise (suc a / 2) (b / 2),
  lowest_digit (λ y. 0) min a b,
)

half_ones : (k : ℕ) → (2 ^ suc k - 1) / 2 ≡ 2 ^ k - 1
half_ones k = omega (arith, pow-double k, one-le-pow k 2 (omega arith))

-- A mask of `k` low digits is the remainder by `2 ^ k`.
pub and_mask : (k a : ℕ) → bit_and a (2 ^ k - 1) ≡ a % 2 ^ k
and_mask zero a = rw mod-one (and-zero_fuel a a (le_refl a))
and_mask (suc k) a = omega (
  arith,
  and_step a (2 ^ suc k - 1),
  mod_pow-suc k a,
  and_mask k (a / 2),
  pow-double k,
  one-le-pow k 2 (omega arith),
  ap (λ t. bit_and (a / 2) t) (half_ones k),
)

pub or_step : (a b : ℕ) → bit_or a b ≡ bit_or (a / 2) (b / 2) * 2 + max (a % 2) (b % 2)
or_step zero b = omega (arith, bit_or-bitwise 0 b, bit_or-bitwise 0 (b / 2))
or_step (suc a) b = omega (
  arith,
  bit_or-bitwise (suc a) b,
  bit_or-bitwise (suc a / 2) (b / 2),
  lowest_digit (λ y. y) max a b,
)

or-zero_fuel : (n a : ℕ) → a ≤ n → bit_or a 0 ≡ a
or-zero_fuel n zero h = refl
or-zero_fuel zero (suc a) h = absurd (omega arith)
or-zero_fuel (suc n) (suc a) h =
    omega (arith, or_step (suc a) 0, or-zero_fuel n (suc a / 2) (omega arith))

-- `(q << k) | r` is a sum when `r` fits `k` digits.
pub or_fields : (k q r : ℕ) → r < 2 ^ k → bit_or (q * 2 ^ k) r ≡ q * 2 ^ k + r
or_fields zero q r h = ground (arith, or-zero_fuel q q)
or_fields (suc k) q r h = ground (
  arith,
  or_step (q * 2 ^ suc k) r,
  ap (λ t. q * t) (pow-double k),
  pow-double k,
  or_fields k q (r / 2) (omega (arith, pow-double k)),
)

-- Exclusive or with `k` ones is the complement of a number of `k` digits.
pub xor-ones : (k a : ℕ) → a < 2 ^ k → bit_xor a (2 ^ k - 1) ≡ 2 ^ k - 1 - a
xor-ones zero a h = ground (arith, xor-zero a)
xor-ones (suc k) a h = omega (
  arith,
  xor_step a (2 ^ suc k - 1),
  xor-ones k (a / 2) (omega (arith, pow-double k)),
  pow-double k,
  one-le-pow k 2 (omega arith),
  ap (λ t. bit_xor (a / 2) t) (half_ones k),
)
