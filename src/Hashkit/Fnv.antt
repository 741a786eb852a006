-- ===== src/Hashkit/Fnv.antt =====
-- `hash_fnv1_64`, `hash_fnv1a_64`, `hash_fnv1_32` and `hash_fnv1a_32` of hashkit.c.
use timeseries_database.Base.{ℕ, List, [], ◌∷◌, bit_xor, u32, mul32, mul64, sext32, sext64}

abbrev pub fnv_64_init : ℕ
fnv_64_init = 0xcbf29ce484222325

abbrev pub fnv_64_prime : ℕ
fnv_64_prime = 0x100000001b3

abbrev pub fnv_32_init : ℕ
fnv_32_init = 2166136261

abbrev pub fnv_32_prime : ℕ
fnv_32_prime = 16777619

unfoldable pub fnv1_64_loop : ℕ → List ℕ → ℕ
fnv1_64_loop hash [] = hash
fnv1_64_loop hash (c ∷ key) = fnv1_64_loop (bit_xor (mul64 hash fnv_64_prime) (sext64 c)) key

unfoldable pub hash_fnv1_64 : List ℕ → ℕ
hash_fnv1_64 key = u32 (fnv1_64_loop fnv_64_init key)

-- The accumulator of `hash_fnv1a_64` is a `uint32_t`, and so are the constants that it uses.
unfoldable pub fnv1a_64_loop : ℕ → List ℕ → ℕ
fnv1a_64_loop hash [] = hash
fnv1a_64_loop hash (c ∷ key) =
    fnv1a_64_loop (mul32 (bit_xor hash (sext32 c)) (u32 fnv_64_prime)) key

unfoldable pub hash_fnv1a_64 : List ℕ → ℕ
hash_fnv1a_64 key = fnv1a_64_loop (u32 fnv_64_init) key

unfoldable pub fnv1_32_loop : ℕ → List ℕ → ℕ
fnv1_32_loop hash [] = hash
fnv1_32_loop hash (c ∷ key) = fnv1_32_loop (bit_xor (mul32 hash fnv_32_prime) (sext32 c)) key

unfoldable pub hash_fnv1_32 : List ℕ → ℕ
hash_fnv1_32 key = fnv1_32_loop fnv_32_init key

unfoldable pub fnv1a_32_loop : ℕ → List ℕ → ℕ
fnv1a_32_loop hash [] = hash
fnv1a_32_loop hash (c ∷ key) = fnv1a_32_loop (mul32 (bit_xor hash (sext32 c)) fnv_32_prime) key

unfoldable pub hash_fnv1a_32 : List ℕ → ℕ
hash_fnv1a_32 key = fnv1a_32_loop fnv_32_init key
