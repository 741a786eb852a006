-- ===== src/Md5/Selection.antt =====
-- F and G of md5.c, which are written without a complement, select bits as RFC 1321 says.
use Prim.Native.Nat.{bit_and-bitwise}
use native.Mathlib.Nat.{one-le-pow}
use timeseries_database.Base.{
  ℕ, zero, suc, ◌+◌, ◌-◌, ◌/◌, ◌%◌, ◌^◌, ◌<◌, ◌≡◌, refl, ap, ◌∙◌, bit_and, bit_or, bit_xor, arith,
  not32, min, max,
}
use timeseries_database.Base.Bits.{xor_step, xor-half, xor-parity, pow-double}
use timeseries_database.Base.Masks.{and_step, or_step}
use timeseries_database.Md5.{f_function, g_function}

zero-and : (b : ℕ) → bit_and 0 b ≡ 0
zero-and b = bit_and-bitwise 0 b

and-half : (a b : ℕ) → bit_and a b / 2 ≡ bit_and (a / 2) (b / 2)
and-half a b = omega (arith, and_step a b)

and-parity : (a b : ℕ) → bit_and a b % 2 ≡ min (a % 2) (b % 2)
and-parity a b = omega (arith, and_step a b)

select-zero :
    (x y z : ℕ)
    → x ≡ 0
    → z ≡ 0
    → bit_xor z (bit_and x (bit_xor y z)) ≡ bit_or (bit_and x y) (bit_and (0 - x) z)
select-zero x y z hx hz = rw (hx, hz) (rw (zero-and y, zero-and (bit_xor y 0), zero-and 0) refl)

digit :
    (x y z : ℕ)
    → (z + min (x % 2) ((y + z) % 2)) % 2 ≡ max (min (x % 2) (y % 2)) (min (1 - x % 2) (z % 2))
digit x y z = omega arith

-- The bits of `y` where `x` has ones, and those of `z` elsewhere.
select :
    (k x y z : ℕ)
    → x < 2 ^ k
    → z < 2 ^ k
    → bit_xor z (bit_and x (bit_xor y z)) ≡ bit_or (bit_and x y) (bit_and (2 ^ k - 1 - x) z)
select zero x y z hx hz = select-zero x y z (omega arith) (omega arith)
select (suc k) x y z hx hz =
    let pow = pow-double k in
    let differ = bit_xor y z in
    let other = 2 ^ suc k - 1 - x in
    let rest : other / 2 ≡ 2 ^ k - 1 - x / 2 = omega (arith, pow) in
    let last : other % 2 ≡ 1 - x % 2 = omega (arith, pow, one-le-pow k 2 (omega arith)) in
    let left : bit_and x differ / 2 ≡ bit_and (x / 2) (bit_xor (y / 2) (z / 2)) =
      and-half x differ ∙ ap (λ t. bit_and (x / 2) t) (xor-half y z) in
    let right : bit_and other z / 2 ≡ bit_and (2 ^ k - 1 - x / 2) (z / 2) =
      and-half other z ∙ ap (λ t. bit_and t (z / 2)) rest in
    omega (
      arith,
      xor_step z (bit_and x differ),
      or_step (bit_and x y) (bit_and other z),
      ap (λ t. bit_xor (z / 2) t) left,
      ap (λ t. bit_or t (bit_and other z / 2)) (and-half x y),
      ap (λ t. bit_or (bit_and (x / 2) (y / 2)) t) right,
      and-parity x differ,
      xor-parity y z,
      and-parity x y,
      and-parity other z,
      last,
      digit x y z,
      select k (x / 2) (y / 2) (z / 2) (omega (arith, pow)) (omega (arith, pow)),
    )

-- On 32-bit words F, which is written without a complement, takes the bits of y where x has ones
-- and those of z elsewhere, and G the bits of x where z has ones and those of y elsewhere, as RFC
-- 1321 defines them.
pub f_function-select :
    (x y z : ℕ)
    → x < 2 ^ 32
    → y < 2 ^ 32
    → z < 2 ^ 32
    → (f_function x y z ≡ bit_or (bit_and x y) (bit_and (not32 x) z))
      × (g_function x y z ≡ bit_or (bit_and z x) (bit_and (not32 z) y))
f_function-select x y z hx hy hz = (select 32 x y z hx hz, select 32 z x y hz hy)
