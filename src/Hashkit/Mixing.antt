-- ===== src/Hashkit/Mixing.antt =====
-- `hash_hsieh`, `hash_murmur` and `hash_one_at_a_time` of hashkit.c.
use timeseries_database.Base.{
  ℕ, ◌+◌, ◌*◌, ◌^◌, List, [], ◌∷◌, length, bit_xor, u32, add32, mul32, shl32, ◌>>>◌, sext32,
}

-- `get16bits`, where no 16-bit read is assumed.
abbrev pub get16bits : ℕ → ℕ → ℕ
get16bits c0 c1 = shl32 c1 8 + c0

-- The loop of `hash_hsieh` with its `switch`, which takes up to three bytes that are left.
unfoldable pub hsieh_loop : ℕ → List ℕ → ℕ
hsieh_loop hash [] = hash
hsieh_loop hash (c0 ∷ []) =
    let hash = add32 hash c0 in let hash = bit_xor hash (shl32 hash 10) in add32 hash (hash >>> 1)
hsieh_loop hash (c0 ∷ c1 ∷ []) =
    let hash = add32 hash (get16bits c0 c1) in
    let hash = bit_xor hash (shl32 hash 11) in add32 hash (hash >>> 17)
hsieh_loop hash (c0 ∷ c1 ∷ c2 ∷ []) =
    let hash = add32 hash (get16bits c0 c1) in
    let hash = bit_xor hash (shl32 hash 16) in
    let hash = bit_xor hash (shl32 (sext32 c2) 18) in add32 hash (hash >>> 11)
hsieh_loop hash (c0 ∷ c1 ∷ c2 ∷ c3 ∷ key) =
    let hash = add32 hash (get16bits c0 c1) in
    let tmp = bit_xor (shl32 (get16bits c2 c3) 11) hash in
    let hash = bit_xor (shl32 hash 16) tmp in hsieh_loop (add32 hash (hash >>> 11)) key

abbrev pub hsieh_end : ℕ → ℕ
hsieh_end hash =
    let hash = bit_xor hash (shl32 hash 3) in
    let hash = add32 hash (hash >>> 5) in
    let hash = bit_xor hash (shl32 hash 4) in
    let hash = add32 hash (hash >>> 17) in
    let hash = bit_xor hash (shl32 hash 25) in add32 hash (hash >>> 6)

unfoldable pub hash_hsieh : List ℕ → ℕ
unfolding hsieh_loop
hash_hsieh [] = 0
hash_hsieh (c ∷ key) = hsieh_end (hsieh_loop 0 (c ∷ key))

abbrev pub murmur_m : ℕ
murmur_m = 0x5bd1e995

-- What a word of the key becomes before it enters `h`; `r` is 24.
abbrev pub murmur_word : ℕ → ℕ → ℕ → ℕ → ℕ
murmur_word c0 c1 c2 c3 =
    let k = c0 + c1 * 2 ^ 8 + c2 * 2 ^ 16 + c3 * 2 ^ 24 in
    let k = mul32 k murmur_m in let k = bit_xor k (k >>> 24) in mul32 k murmur_m

-- The loop of `hash_murmur` with its `switch`.
unfoldable pub murmur_loop : ℕ → List ℕ → ℕ
murmur_loop h [] = h
murmur_loop h (c0 ∷ []) = mul32 (bit_xor h c0) murmur_m
murmur_loop h (c0 ∷ c1 ∷ []) = let h = bit_xor h (shl32 c1 8) in mul32 (bit_xor h c0) murmur_m
murmur_loop h (c0 ∷ c1 ∷ c2 ∷ []) =
    let h = bit_xor h (shl32 c2 16) in
    let h = bit_xor h (shl32 c1 8) in mul32 (bit_xor h c0) murmur_m
murmur_loop h (c0 ∷ c1 ∷ c2 ∷ c3 ∷ rest) =
    murmur_loop (bit_xor (mul32 h murmur_m) (murmur_word c0 c1 c2 c3)) rest

abbrev pub murmur_end : ℕ → ℕ
murmur_end h = let h = bit_xor h (h >>> 13) in let h = mul32 h murmur_m in bit_xor h (h >>> 15)

unfoldable pub hash_murmur : List ℕ → ℕ
unfolding murmur_loop
hash_murmur key =
    let seed = mul32 0xdeadbeef (u32 (length key)) in
    murmur_end (murmur_loop (bit_xor seed (u32 (length key))) key)

-- One round of the loop of `hash_one_at_a_time`.
abbrev pub one_at_a_time_round : ℕ → ℕ → ℕ
one_at_a_time_round value c =
    let value = add32 value (sext32 c) in
    let value = add32 value (shl32 value 10) in bit_xor value (value >>> 6)

unfoldable pub one_at_a_time_loop : ℕ → List ℕ → ℕ
one_at_a_time_loop value [] = value
one_at_a_time_loop value (c ∷ ptr) = one_at_a_time_loop (one_at_a_time_round value c) ptr

abbrev pub one_at_a_time_end : ℕ → ℕ
one_at_a_time_end value =
    let value = add32 value (shl32 value 3) in
    let value = bit_xor value (value >>> 11) in add32 value (shl32 value 15)

unfoldable pub hash_one_at_a_time : List ℕ → ℕ
unfolding one_at_a_time_loop
hash_one_at_a_time key = one_at_a_time_end (one_at_a_time_loop 0 key)
