-- ===== src/Hashkit/FnvTruncation.antt =====
-- The 32-bit arithmetic of `hash_fnv1a_64` against the 64-bit FNV-1a, on keys of ASCII characters.
use timeseries_database.Base.{
  ℕ, ◌%◌, ◌^◌, ◌<◌, ◌≡◌, refl, ap, sym, ◌∙◌, List, [], ◌∷◌, arith, bit_xor, u32, mul32, mul64,
  sext32,
}
use timeseries_database.Base.Bits.{xor-mod_pow}
use timeseries_database.Hashkit.Fnv.{fnv_64_init, fnv_64_prime, fnv1a_64_loop, hash_fnv1a_64}

-- FNV-1a over 64-bit words and octets, with no cut before the end.
unfoldable pub fnv1a_wide : ℕ → List ℕ → ℕ
fnv1a_wide hash [] = hash
fnv1a_wide hash (c ∷ key) = fnv1a_wide (mul64 (bit_xor hash c) fnv_64_prime) key

abbrev pub IsAscii : List ℕ → Type 0
IsAscii [] = Unit
IsAscii (c ∷ key) = (c < 128) × IsAscii key

octet-low : (c : ℕ) → c < 128 → c % 2 ^ 32 ≡ sext32 c
octet-low c h = ground arith

mul64-low : (x y : ℕ) → x % 2 ^ 32 ≡ y → mul64 x fnv_64_prime % 2 ^ 32 ≡ mul32 y (u32 fnv_64_prime)
mul64-low x y h = omega arith

round-low :
    (hash c : ℕ)
    → c < 128
    → mul64 (bit_xor hash c) fnv_64_prime % 2 ^ 32
      ≡ mul32 (bit_xor (hash % 2 ^ 32) (sext32 c)) (u32 fnv_64_prime)
round-low hash c h =
    mul64-low (bit_xor hash c) (bit_xor (hash % 2 ^ 32) (sext32 c))
      (xor-mod_pow 32 hash c ∙ ap (bit_xor (hash % 2 ^ 32)) (octet-low c h))

wide-low :
    (key : List ℕ) (hash : ℕ)
    → IsAscii key
    → fnv1a_wide hash key % 2 ^ 32 ≡ fnv1a_64_loop (hash % 2 ^ 32) key
unfolding fnv1a_wide fnv1a_64_loop
wide-low [] hash h = refl
wide-low (c ∷ key) hash (hc, hk) =
    rw (← round-low hash c hc) (wide-low key (mul64 (bit_xor hash c) fnv_64_prime) hk)

-- On keys of ASCII characters hash_fnv1a_64, which works in 32 bits throughout, returns the low
-- half of the 64-bit FNV-1a of the key.
pub hash_fnv1a_64-wide :
    (key : List ℕ) → IsAscii key → hash_fnv1a_64 key ≡ fnv1a_wide fnv_64_init key % 2 ^ 32
unfolding hash_fnv1a_64
hash_fnv1a_64-wide key h = sym (wide-low key fnv_64_init h)
