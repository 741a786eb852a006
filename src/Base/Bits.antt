-- ===== src/Base/Bits.antt =====
-- Laws of exclusive or at variables, from the digit recursion.
use Prim.Native.Nat.{ℕ, zero, suc, ◌+◌, ◌-◌, ◌*◌, ◌/◌, ◌%◌, ◌^◌, ◌≤◌, ◌<◌, digits}
use Prim.Native.Nat.{bit_xor, bitwise, differ}
use Prim.Native.Nat.{bit_xor-bitwise}
use mathlib.Core.Path.{◌≡◌, refl, ap, ◌∙◌}
use native.Mathlib.Nat.{
  le_refl, pow-suc, one-le-pow, div-div-eq-div-mul, mod-eq-sub-mul-div, mul-div-le,
}
use native.Mathlib.Nat.{mod-one, div-one, mod-lt, mod-eq_of_lt}
use native.Mathlib.Omega.{arith}

-- Fuel from the first number on is enough for its digits.
module _ (z : ℕ → ℕ) (f : ℕ → ℕ → ℕ) where
  more_fuel : (n a b : ℕ) → a ≤ n → digits z f (suc n) a b ≡ digits z f n a b
  more_fuel zero zero b le = refl
  more_fuel (suc _) zero b le = refl
  more_fuel zero (suc a) b le = absurd (omega arith)
  more_fuel (suc n) (suc a) b le = rw (more_fuel n (suc a / 2) (b / 2) (omega arith))

  enough_fuel : (k n a b : ℕ) → n ≡ k + a → digits z f n a b ≡ digits z f a a b
  enough_fuel zero n a b e = ap (λ m. digits z f m a b) (omega arith)
  enough_fuel (suc k) zero a b e = absurd (omega arith)
  enough_fuel (suc k) (suc n) a b e =
      more_fuel n a b (omega arith) ∙ enough_fuel k n a b (omega arith)

  pub lowest_digit :
      (a b : ℕ)
      → bitwise z f (suc a) b ≡ f (suc a % 2) (b % 2) + 2 * bitwise z f (suc a / 2) (b / 2)
  lowest_digit a b =
      let half = suc a / 2 in omega (arith, enough_fuel (a - half) a half (b / 2) (omega arith))

differ-digits : (a b : ℕ) → a < 2 → b < 2 → differ a b ≡ (a + b) % 2
differ-digits zero zero p q = refl
differ-digits zero (suc zero) p q = refl
differ-digits zero (suc (suc b)) p q = absurd (omega arith)
differ-digits (suc zero) zero p q = refl
differ-digits (suc zero) (suc zero) p q = refl
differ-digits (suc zero) (suc (suc b)) p q = absurd (omega arith)
differ-digits (suc (suc a)) b p q = absurd (omega arith)

pub zero-xor : (b : ℕ) → bit_xor 0 b ≡ b
zero-xor b = bit_xor-bitwise 0 b

-- One equation for the lowest digit.
pub xor_step : (a b : ℕ) → bit_xor a b ≡ bit_xor (a / 2) (b / 2) * 2 + (a + b) % 2
xor_step zero b = omega (arith, zero-xor b, zero-xor (b / 2))
xor_step (suc a) b = omega (
  arith,
  bit_xor-bitwise (suc a) b,
  bit_xor-bitwise (suc a / 2) (b / 2),
  lowest_digit (λ y. y) differ a b,
  differ-digits (suc a % 2) (b % 2) (omega arith) (omega arith),
)

pub xor-half : (a b : ℕ) → bit_xor a b / 2 ≡ bit_xor (a / 2) (b / 2)
xor-half a b = omega (arith, xor_step a b)

pub xor-parity : (a b : ℕ) → bit_xor a b % 2 ≡ (a + b) % 2
xor-parity a b = omega (arith, xor_step a b)

pub xor-zero : (a : ℕ) → bit_xor a 0 ≡ a
xor-zero a = go a a (le_refl a)
  where
    go : (n a : ℕ) → a ≤ n → bit_xor a 0 ≡ a
    go n zero h = refl
    go zero (suc a) h = absurd (omega arith)
    go (suc n) (suc a) h = omega (arith, xor_step (suc a) 0, go n (suc a / 2) (omega arith))

xor_self_fuel : (n a : ℕ) → a ≤ n → bit_xor a a ≡ 0
xor_self_fuel n zero h = refl
xor_self_fuel zero (suc a) h = absurd (omega arith)
xor_self_fuel (suc n) (suc a) h =
    omega (arith, xor_step (suc a) (suc a), xor_self_fuel n (suc a / 2) (omega arith))

pub xor_self : (a : ℕ) → bit_xor a a ≡ 0
xor_self a = xor_self_fuel a a (le_refl a)

xor_comm_fuel : (n a b : ℕ) → a ≤ n → bit_xor a b ≡ bit_xor b a
xor_comm_fuel n zero b h = omega (arith, zero-xor b, xor-zero b)
xor_comm_fuel zero (suc a) b h = absurd (omega arith)
xor_comm_fuel (suc n) (suc a) b h = omega (
  arith,
  xor_step (suc a) b,
  xor_step b (suc a),
  xor_comm_fuel n (suc a / 2) (b / 2) (omega arith),
)

pub xor_comm : (a b : ℕ) → bit_xor a b ≡ bit_xor b a
xor_comm a b = xor_comm_fuel a a b (le_refl a)

-- The step of an exclusive or of three numbers.
xor_step_left :
    (a b c : ℕ)
    → bit_xor (bit_xor a b) c ≡ bit_xor (bit_xor (a / 2) (b / 2)) (c / 2) * 2 + (a + b + c) % 2
xor_step_left a b c =
    omega
      (arith, xor_step (bit_xor a b) c, xor-parity a b, ap (λ t. bit_xor t (c / 2)) (xor-half a b))

xor_step_right :
    (a b c : ℕ)
    → bit_xor a (bit_xor b c) ≡ bit_xor (a / 2) (bit_xor (b / 2) (c / 2)) * 2 + (a + b + c) % 2
xor_step_right a b c =
    omega
      (arith, xor_step a (bit_xor b c), xor-parity b c, ap (λ t. bit_xor (a / 2) t) (xor-half b c))

xor_assoc_fuel : (n a b c : ℕ) → a ≤ n → bit_xor (bit_xor a b) c ≡ bit_xor a (bit_xor b c)
xor_assoc_fuel n zero b c h = rw (zero-xor b, zero-xor (bit_xor b c))
xor_assoc_fuel zero (suc a) b c h = absurd (omega arith)
xor_assoc_fuel (suc n) (suc a) b c h = omega (
  arith,
  xor_step_left (suc a) b c,
  xor_step_right (suc a) b c,
  xor_assoc_fuel n (suc a / 2) (b / 2) (c / 2) (omega arith),
)

pub xor_assoc : (a b c : ℕ) → bit_xor (bit_xor a b) c ≡ bit_xor a (bit_xor b c)
xor_assoc a b c = xor_assoc_fuel a a b c (le_refl a)

pub pow-double : (k : ℕ) → 2 ^ suc k ≡ 2 * 2 ^ k
pow-double k = omega (arith, pow-suc 2 k)

-- The low digit of a remainder by a power of two, and the rest of it.
div_pow-suc : (k x : ℕ) → x / 2 ^ suc k ≡ x / 2 / 2 ^ k
div_pow-suc k x = rw (div-div-eq-div-mul x 2 (2 ^ k), pow-double k)

pub mod_pow-suc : (k x : ℕ) → x % 2 ^ suc k ≡ x / 2 % 2 ^ k * 2 + x % 2
mod_pow-suc k x = omega (
  arith,
  mod-eq-sub-mul-div x (2 ^ suc k),
  mod-eq-sub-mul-div (x / 2) (2 ^ k),
  mul-div-le (x / 2) (2 ^ k),
  ap (λ t. t * (x / 2 ^ suc k)) (pow-double k),
  ap (λ t. 2 * (2 ^ k * t)) (div_pow-suc k x),
)

-- Exclusive or acts on the low `k` digits and on those above them apart.
pub xor-mod_pow : (k a b : ℕ) → bit_xor a b % 2 ^ k ≡ bit_xor (a % 2 ^ k) (b % 2 ^ k)
xor-mod_pow zero a b = simp mod-one
xor-mod_pow (suc k) a b = omega (
  arith,
  mod_pow-suc k (bit_xor a b),
  mod_pow-suc k a,
  mod_pow-suc k b,
  ap (λ t. t % 2 ^ k) (xor-half a b),
  xor-mod_pow k (a / 2) (b / 2),
  xor-parity a b,
  xor_step (a % 2 ^ suc k) (b % 2 ^ suc k),
  ap (λ t. bit_xor t (b % 2 ^ suc k / 2)) (low-half k a),
  ap (λ t. bit_xor (a / 2 % 2 ^ k) t) (low-half k b),
)
  where
    low-half : (k x : ℕ) → x % 2 ^ suc k / 2 ≡ x / 2 % 2 ^ k
    low-half k x = omega (arith, mod_pow-suc k x)

pub xor-div_pow : (k a b : ℕ) → bit_xor a b / 2 ^ k ≡ bit_xor (a / 2 ^ k) (b / 2 ^ k)
xor-div_pow zero a b = simp div-one
xor-div_pow (suc k) a b =
    rw (div_pow-suc k (bit_xor a b), div_pow-suc k a, div_pow-suc k b, xor-half a b)
      (xor-div_pow k (a / 2) (b / 2))

pub xor-lt : (k a b : ℕ) → a < 2 ^ k → b < 2 ^ k → bit_xor a b < 2 ^ k
xor-lt k a b p q = rw (← low) (mod-lt (bit_xor a b) (one-le-pow k 2 (omega arith)))
  where
    low : bit_xor a b % 2 ^ k ≡ bit_xor a b
    low = rw (xor-mod_pow k a b, mod-eq_of_lt p, mod-eq_of_lt q)

-- Numbers with no digit in common add up.
pub xor_fields : (k q r : ℕ) → r < 2 ^ k → bit_xor (q * 2 ^ k) r ≡ q * 2 ^ k + r
xor_fields zero q r h = ground (arith, xor-zero q)
xor_fields (suc k) q r h = ground (
  arith,
  xor_step (q * 2 ^ suc k) r,
  ap (λ t. q * t) (pow-double k),
  pow-double k,
  xor_fields k q (r / 2) (omega (arith, pow-double k)),
)

pub xor_interchange :
    (a b c d : ℕ) → bit_xor (bit_xor a b) (bit_xor c d) ≡ bit_xor (bit_xor a c) (bit_xor b d)
xor_interchange a b c d = rw (
  xor_assoc a b (bit_xor c d),
  ← xor_assoc b c d,
  xor_comm b c,
  xor_assoc c b d,
  ← xor_assoc a c (bit_xor b d),
)
