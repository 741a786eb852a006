-- ===== src/Hashkit/Crc.antt =====
-- `hash_crc16`, `hash_crc32` and `hash_crc32a` of hashkit.c.
use timeseries_database.Base.{
  ℕ, ◌-◌, ◌^◌, List, [], ◌∷◌, bit_and, bit_xor, get_or, ◌>>>◌, shl32, not32, sext32, sext64,
}
use timeseries_database.Hashkit.Tables.{crc16tab, crc32tab}

-- The loop of `hash_crc16`. The accumulator is a `uint32_t`, and is never cut back to 16 bits.
unfoldable pub crc16_loop : ℕ → List ℕ → ℕ
crc16_loop crc [] = crc
crc16_loop crc (c ∷ key) =
    crc16_loop
      (bit_xor (shl32 crc 8) (get_or crc16tab (bit_and (bit_xor (crc >>> 8) (sext32 c)) 0x00ff) 0))
      key

unfoldable pub hash_crc16 : List ℕ → ℕ
hash_crc16 key = crc16_loop 0 key

-- The loop of `hash_crc32`.
unfoldable pub crc32_loop : ℕ → List ℕ → ℕ
crc32_loop crc [] = crc
crc32_loop crc (c ∷ key) =
    crc32_loop (bit_xor (crc >>> 8) (get_or crc32tab (bit_and (bit_xor crc (sext64 c)) 0xff) 0)) key

unfoldable pub hash_crc32 : List ℕ → ℕ
hash_crc32 key = bit_and (not32 (crc32_loop (2 ^ 32 - 1) key) >>> 16) 0x7fff

-- The loop of `hash_crc32a`, which reads its key as unsigned bytes.
unfoldable pub crc32a_loop : ℕ → List ℕ → ℕ
crc32a_loop crc [] = crc
crc32a_loop crc (c ∷ p) =
    crc32a_loop (bit_xor (get_or crc32tab (bit_and (bit_xor crc c) 0xff) 0) (crc >>> 8)) p

unfoldable pub hash_crc32a : List ℕ → ℕ
hash_crc32a key = bit_xor (crc32a_loop (2 ^ 32 - 1) key) (2 ^ 32 - 1)
