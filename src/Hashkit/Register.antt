-- ===== src/Hashkit/Register.antt =====
-- A shift register that is clocked a number of times.
use timeseries_database.Base.{ℕ, zero, suc, ◌≡◌, refl, bit_xor}

module _ (clock : ℕ → ℕ) where
  unfoldable pub clocks : ℕ → ℕ → ℕ
  clocks zero x = x
  clocks (suc n) x = clocks n (clock x)

  module _ (clock-xor : (a b : ℕ) → clock (bit_xor a b) ≡ bit_xor (clock a) (clock b)) where
    pub clocks-xor : (n a b : ℕ) → clocks n (bit_xor a b) ≡ bit_xor (clocks n a) (clocks n b)
    unfolding clocks
    clocks-xor zero a b = refl
    clocks-xor (suc n) a b = rw (clock-xor a b) (clocks-xor n (clock a) (clock b))
