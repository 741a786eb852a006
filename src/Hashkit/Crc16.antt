-- ===== src/Hashkit/Crc16.antt =====
-- `hash_crc16` of hashkit.c against the shift register of CRC-16.
use native.Mathlib.Nat.{one-le-pow, mod-eq_of_lt}
use timeseries_database.Base.{
  ℕ, zero, suc, ◌*◌, ◌/◌, ◌%◌, ◌^◌, ◌<◌, ◌≡◌, refl, ap, ◌∙◌, true, ltb, ltb→lt, List, [], ◌∷◌,
  arith, bit_and, bit_xor, get_or, ◌==◌, ==_iff, if◌then◌else◌, ◌>>>◌, shl32, sext32,
}
use timeseries_database.Base.Bits.{
  xor-zero, xor-parity, xor_step, xor_comm, pow-double, xor_interchange, xor_fields, xor-div_pow,
  xor-mod_pow, xor-lt,
}
use timeseries_database.Base.Masks.{and_mask}
use timeseries_database.Base.Bytes.{IsBytes, passes, passes-lt}
use timeseries_database.Hashkit.Register.{clocks, clocks-xor}
use timeseries_database.Hashkit.Tables.{crc16tab}
use timeseries_database.Hashkit.Crc.{crc16_loop, hash_crc16}

-- What the digit that drops out at the top feeds back into the register.
abbrev feedback : ℕ → ℕ
feedback x = if x / 2 ^ 15 % 2 == 0 then 0 else 0x1021

-- One clock of the CRC-16 register, highest digit first.
abbrev pub clock : ℕ → ℕ
clock x = bit_xor (x * 2 % 2 ^ 16) (feedback x)

-- Each byte is added to the high end, and then clocked through.
pub register : ℕ → List ℕ → ℕ
register crc [] = crc
register crc (c ∷ key) = register (clocks clock 8 (bit_xor crc (c * 256))) key

feedback-xor : (a b : ℕ) → feedback (bit_xor a b) ≡ bit_xor (feedback a) (feedback b)
feedback-xor a b = ground (arith, xor-div_pow 15 a b, xor-parity (a / 2 ^ 15) (b / 2 ^ 15))

double-xor : (a b : ℕ) → bit_xor (a * 2) (b * 2) ≡ bit_xor a b * 2
double-xor a b = ground (arith, xor_step (a * 2) (b * 2))

clock-xor : (a b : ℕ) → clock (bit_xor a b) ≡ bit_xor (clock a) (clock b)
clock-xor a b =
    rw (feedback-xor a b, ← double-xor a b, xor-mod_pow 16 (a * 2) (b * 2))
      (xor_interchange (a * 2 % 2 ^ 16) (b * 2 % 2 ^ 16) (feedback a) (feedback b))

-- While the top digit is clear, a clock doubles.
clock-low : (m : ℕ) → m < 2 ^ 15 → clock m ≡ m * 2
clock-low m h = ground (arith, xor-zero (m * 2))

clocks-low : (n r : ℕ) → r * 2 ^ n < 2 ^ 16 → clocks clock n r ≡ r * 2 ^ n
unfolding clocks
clocks-low zero r h = omega arith
clocks-low (suc n) r h = rw (clock-low r small) (ground (arith, clocks-low n (r * 2) bound, same))
  where
    same : r * 2 ^ suc n ≡ r * 2 * 2 ^ n
    same = omega (arith, ap (λ t. r * t) (pow-double n))

    bound : r * 2 * 2 ^ n < 2 ^ 16
    bound = omega (arith, same)

    small : r < 2 ^ 15
    small = grind (arith, one-le-pow n 2 (omega arith))

table_checked : passes (λ i. get_or crc16tab i 0 == clocks clock 8 (i * 256)) 256 ≡ true
unfolding passes crc16tab clocks
table_checked = refl

table-clocks : (i : ℕ) → i < 256 → get_or crc16tab i 0 ≡ clocks clock 8 (i * 256)
table-clocks i h = (==_iff _ _).0 (passes-lt _ 256 i table_checked h)

table_small : passes (λ i. ltb (get_or crc16tab i 0) (2 ^ 16)) 256 ≡ true
unfolding passes crc16tab
table_small = refl

table-lt : (i : ℕ) → i < 256 → get_or crc16tab i 0 < 2 ^ 16
table-lt i h = ltb→lt _ _ (passes-lt _ 256 i table_small h)

-- Eight clocks are one look-up at the high byte, with the low byte moved up.
clocks-table :
    (y : ℕ) → y < 2 ^ 16 → clocks clock 8 y ≡ bit_xor (y % 256 * 256) (get_or crc16tab (y / 256) 0)
clocks-table y h =
    ap (clocks clock 8) split
    ∙ clocks-xor clock clock-xor 8 (y / 256 * 256) (y % 256)
    ∙ rw (
      ← table-clocks (y / 256) (omega arith),
      clocks-low 8 (y % 256) (omega arith),
      xor_comm (get_or crc16tab (y / 256) 0) (y % 256 * 256),
    )
  where
    split : y ≡ bit_xor (y / 256 * 256) (y % 256)
    split = omega (arith, xor_fields 8 (y / 256) (y % 256) (omega arith))

-- One round of the code, read modulo `2 ^ 16`, is one round of the register.
round-register :
    (crc c : ℕ)
    → c < 256
    → bit_xor (shl32 crc 8) (get_or crc16tab (bit_and (bit_xor (crc >>> 8) (sext32 c)) 0x00ff) 0)
        % 2 ^ 16
      ≡ clocks clock 8 (bit_xor (crc % 2 ^ 16) (c * 256))
round-register crc c h = rw (
  clocks-table y (xor-lt 16 (crc % 2 ^ 16) (c * 256) (omega arith) (omega arith)),
  and_mask 8 (bit_xor (crc / 256) (sext32 c)),
  xor-mod_pow 16 (shl32 crc 8) (get_or crc16tab (bit_xor (crc / 256) (sext32 c) % 256) 0),
  mod-eq_of_lt (table-lt (bit_xor (crc / 256) (sext32 c) % 256) (omega arith)),
  index,
  low,
  moved,
)
  where
    y : ℕ
    y = bit_xor (crc % 2 ^ 16) (c * 256)

    index : bit_xor (crc / 256) (sext32 c) % 256 ≡ y / 256
    index =
        ground (arith, xor-mod_pow 8 (crc / 256) (sext32 c), xor-div_pow 8 (crc % 2 ^ 16) (c * 256))

    low : y % 256 ≡ crc % 256
    low = ground (arith, xor-mod_pow 8 (crc % 2 ^ 16) (c * 256), xor-zero (crc % 256))

    moved : shl32 crc 8 % 2 ^ 16 ≡ crc % 256 * 256
    moved = omega arith

crc16_loop-register :
    (key : List ℕ) (crc : ℕ)
    → IsBytes key
    → crc16_loop crc key % 2 ^ 16 ≡ register (crc % 2 ^ 16) key
unfolding crc16_loop register
crc16_loop-register [] crc h = refl
crc16_loop-register (c ∷ key) crc (hc, hk) = rw (← round-register crc c hc) (
    crc16_loop-register key
      (bit_xor (shl32 crc 8) (get_or crc16tab (bit_and (bit_xor (crc >>> 8) (sext32 c)) 0x00ff) 0))
      hk)

-- On bytes the low sixteen bits of hash_crc16 are the CRC-16 of the key: the register, started at
-- 0, that takes the bytes bit by bit with no table.
pub hash_crc16-register : (key : List ℕ) → IsBytes key → hash_crc16 key % 2 ^ 16 ≡ register 0 key
unfolding hash_crc16
hash_crc16-register key h = crc16_loop-register key 0 h
