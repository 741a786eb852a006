-- ===== src/Hashkit/Crc32.antt =====
-- The CRC-32 functions of hashkit.c against the shift register that a CRC is defined by.
use timeseries_database.Base.{
  ℕ, zero, suc, ◌-◌, ◌*◌, ◌/◌, ◌%◌, ◌^◌, ◌<◌, ◌≡◌, refl, ap, ◌∙◌, true, List, [], ◌∷◌, arith,
  bit_and, bit_xor, get_or, ◌==◌, ==_iff, if◌then◌else◌, ◌>>>◌, sext64,
}
use timeseries_database.Base.Bits.{
  xor_comm, xor-zero, pow-double, xor_interchange, xor_fields, xor-half, xor-parity, xor-div_pow,
  xor-mod_pow, xor-lt,
}
use timeseries_database.Base.Masks.{xor-ones, and_mask}
use timeseries_database.Base.Bytes.{IsBytes, passes, passes-lt}
use timeseries_database.Hashkit.Register.{clocks, clocks-xor}
use timeseries_database.Hashkit.Tables.{crc32tab}
use timeseries_database.Hashkit.Crc.{crc32_loop, hash_crc32, crc32a_loop, hash_crc32a}

-- What the digit that drops out of the register feeds back into it.
abbrev feedback : ℕ → ℕ
feedback x = if x % 2 == 0 then 0 else 0xedb88320

-- One clock of the reflected CRC-32 register.
abbrev pub clock : ℕ → ℕ
clock x = bit_xor (x / 2) (feedback x)

-- Each byte is added to the low end, and then clocked through.
pub register : ℕ → List ℕ → ℕ
register crc [] = crc
register crc (c ∷ key) = register (clocks clock 8 (bit_xor crc c)) key

feedback-xor : (a b : ℕ) → feedback (bit_xor a b) ≡ bit_xor (feedback a) (feedback b)
feedback-xor a b = ground (arith, xor-parity a b)

clock-xor : (a b : ℕ) → clock (bit_xor a b) ≡ bit_xor (clock a) (clock b)
clock-xor a b =
    rw (feedback-xor a b, xor-half a b) (xor_interchange (a / 2) (b / 2) (feedback a) (feedback b))

clock-even : (m : ℕ) → clock (m * 2) ≡ m
clock-even m = ground (arith, xor-zero m)

mul-two : (n m : ℕ) → m * 2 ^ n * 2 ≡ m * (2 * 2 ^ n)
mul-two n m = omega arith

clocks-shift : (n m : ℕ) → clocks clock n (m * 2 ^ n) ≡ m
unfolding clocks
clocks-shift zero m = omega arith
clocks-shift (suc n) m = rw (pow-double n, ← mul-two n m, clock-even (m * 2 ^ n)) (clocks-shift n m)

table_checked : passes (λ i. get_or crc32tab i 0 == clocks clock 8 i) 256 ≡ true
unfolding passes crc32tab clocks
table_checked = refl

table-clocks : (i : ℕ) → i < 256 → get_or crc32tab i 0 ≡ clocks clock 8 i
table-clocks i h = (==_iff _ _).0 (passes-lt _ 256 i table_checked h)

-- Eight clocks of the register are one look-up: the high part moves down, the low byte is
-- replaced by the table's entry.
clocks-table : (x : ℕ) → clocks clock 8 x ≡ bit_xor (x / 256) (get_or crc32tab (x % 256) 0)
clocks-table x =
    ap (clocks clock 8) split
    ∙ clocks-xor clock clock-xor 8 (x / 256 * 256) (x % 256)
    ∙ rw (clocks-shift 8 (x / 256), table-clocks (x % 256) (omega arith))
  where
    split : x ≡ bit_xor (x / 256 * 256) (x % 256)
    split = omega (arith, xor_fields 8 (x / 256) (x % 256) (omega arith))

-- The shift of `crc ^ c` by a byte does not see the byte `c`.
xor-byte_high : (crc c : ℕ) → c < 256 → bit_xor crc c / 256 ≡ crc / 256
xor-byte_high crc c h = ground (arith, xor-div_pow 8 crc c, xor-zero (crc / 256))

crc32a_loop-register :
    (key : List ℕ) (crc : ℕ) → IsBytes key → crc32a_loop crc key ≡ register crc key
unfolding crc32a_loop register
crc32a_loop-register [] crc h = refl
crc32a_loop-register (c ∷ key) crc (hc, hk) = rw (← step) (crc32a_loop-register key _ hk)
  where
    step :
        clocks clock 8 (bit_xor crc c)
        ≡ bit_xor (get_or crc32tab (bit_and (bit_xor crc c) 0xff) 0) (crc >>> 8)
    step = rw (
      clocks-table (bit_xor crc c),
      xor-byte_high crc c hc,
      and_mask 8 (bit_xor crc c),
      xor_comm (crc / 256) (get_or crc32tab (bit_xor crc c % 256) 0),
    )

-- The byte that `hash_crc32` looks up does not see the sign extension of its `char`.
xor-sext64 : (crc c : ℕ) → c < 256 → bit_xor crc (sext64 c) % 256 ≡ bit_xor crc c % 256
xor-sext64 crc c h = ground (arith, xor-mod_pow 8 crc (sext64 c), xor-mod_pow 8 crc c)

crc32_loop-crc32a_loop :
    (key : List ℕ) (crc : ℕ) → IsBytes key → crc32_loop crc key ≡ crc32a_loop crc key
unfolding crc32_loop crc32a_loop
crc32_loop-crc32a_loop [] crc h = refl
crc32_loop-crc32a_loop (c ∷ key) crc (hc, hk) = rw step (crc32_loop-crc32a_loop key _ hk)
  where
    step :
        bit_xor (crc >>> 8) (get_or crc32tab (bit_and (bit_xor crc (sext64 c)) 0xff) 0)
        ≡ bit_xor (get_or crc32tab (bit_and (bit_xor crc c) 0xff) 0) (crc >>> 8)
    step = rw (
      and_mask 8 (bit_xor crc (sext64 c)),
      and_mask 8 (bit_xor crc c),
      xor-sext64 crc c hc,
      xor_comm (crc / 256) (get_or crc32tab (bit_xor crc c % 256) 0),
    )

-- On bytes hash_crc32a is the CRC-32 of the key: the register, started with all ones, that takes
-- the bytes bit by bit with no table, inverted at the end.
pub hash_crc32a-register :
    (key : List ℕ)
    → IsBytes key
    → hash_crc32a key ≡ bit_xor (register (2 ^ 32 - 1) key) (2 ^ 32 - 1)
unfolding hash_crc32a
hash_crc32a-register key h = rw (crc32a_loop-register key _ h)

div-lt_word : (x : ℕ) → x < 2 ^ 32 → x / 2 < 2 ^ 32
div-lt_word x h = omega arith

feedback-lt : (x : ℕ) → feedback x < 2 ^ 32
feedback-lt x = ground arith

clocks-lt : (n x : ℕ) → x < 2 ^ 32 → clocks clock n x < 2 ^ 32
unfolding clocks
clocks-lt zero x h = h
clocks-lt (suc n) x h =
    clocks-lt n (clock x) (xor-lt 32 (x / 2) (feedback x) (div-lt_word x h) (feedback-lt x))

register-lt : (key : List ℕ) (crc : ℕ) → IsBytes key → crc < 2 ^ 32 → register crc key < 2 ^ 32
unfolding register
register-lt [] crc h lt = lt
register-lt (c ∷ key) crc (hc, hk) lt =
    register-lt key (clocks clock 8 (bit_xor crc c)) hk
      (clocks-lt 8 (bit_xor crc c) (xor-lt 32 crc c lt (omega arith)))

-- On bytes hash_crc32 is fifteen bits of the CRC-32 of the key, those from bit 16.
pub hash_crc32-hash_crc32a :
    (key : List ℕ) → IsBytes key → hash_crc32 key ≡ hash_crc32a key / 2 ^ 16 % 2 ^ 15
unfolding hash_crc32 hash_crc32a
hash_crc32-hash_crc32a key h =
    rw (crc32_loop-crc32a_loop key (2 ^ 32 - 1) h, and_mask 15, xor-ones 32 crc small)
  where
    crc : ℕ
    crc = crc32a_loop (2 ^ 32 - 1) key

    small : crc32a_loop (2 ^ 32 - 1) key < 2 ^ 32
    small =
        rw (crc32a_loop-register key (2 ^ 32 - 1) h) (register-lt key (2 ^ 32 - 1) h (omega arith))
