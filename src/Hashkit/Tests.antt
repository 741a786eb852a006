-- ===== src/Hashkit/Tests.antt =====
-- The hash functions at the check strings of their definitions, and the theorems at keys.
use timeseries_database.Base.{
  ℕ, ◌*◌, ◌<◌, ◌≤◌, ◌⊎◌, some, ◌%◌, ◌/◌, ◌^◌, ◌-◌, ◌≡◌, ◌≢◌, refl, List, [], ◌∷◌, ◌++◌, arith,
  bit_xor,
}
use timeseries_database.Hashkit.Tables.{crc32tab, crc16tab}
use timeseries_database.Hashkit.Crc.{crc16_loop, hash_crc16, hash_crc32, crc32a_loop, hash_crc32a}
use timeseries_database.Hashkit.Crc32
use timeseries_database.Hashkit.Crc32.{hash_crc32a-register, hash_crc32-hash_crc32a}
use timeseries_database.Hashkit.Crc16
use timeseries_database.Hashkit.Crc16.{hash_crc16-register}
use timeseries_database.Hashkit.Fnv.{
  fnv_64_init, fnv1a_32_loop, fnv1a_64_loop, hash_fnv1a_32, hash_fnv1a_64,
}
use timeseries_database.Hashkit.FnvTruncation.{fnv1a_wide, hash_fnv1a_64-wide}
use timeseries_database.Base.Int.{pos}
use native.Mathlib.Nat.{le-div_iff_mul-le, mul-le-mul_left}
use timeseries_database.Hashkit.Jenkins.{hash_jenkins}
use timeseries_database.Hashkit.JenkinsAlignment.{hash_jenkins-same}
use timeseries_database.Hashkit.Jump.{
  hash_jump_consistent, hash_jump_consistent-lt, hash_jump_consistent-suc,
}
use timeseries_database.Hashkit.Mixing.{hash_one_at_a_time, one_at_a_time_loop}
use timeseries_database.Hashkit.OneAtATime.{hash_one_at_a_time-ne}
use timeseries_database.Hashkit.FnvSeparation.{hash_fnv1a_32-ne}

-- "123456789"
abbrev digits : List ℕ
digits = 49 ∷ 50 ∷ 51 ∷ 52 ∷ 53 ∷ 54 ∷ 55 ∷ 56 ∷ 57 ∷ []

crc32a_digits : hash_crc32a digits ≡ 0xcbf43926
unfolding hash_crc32a crc32a_loop crc32tab
crc32a_digits = refl

crc16_digits : hash_crc16 digits % 2 ^ 16 ≡ 0x31c3
unfolding hash_crc16 crc16_loop crc16tab
crc16_digits = refl

-- "a"
fnv1a_32_a : hash_fnv1a_32 (97 ∷ []) ≡ 0xe40c292c
unfolding hash_fnv1a_32 fnv1a_32_loop
fnv1a_32_a = refl

hash_crc32a-register_example :
    hash_crc32a digits ≡ bit_xor (Crc32.register (2 ^ 32 - 1) digits) (2 ^ 32 - 1)
hash_crc32a-register_example = hash_crc32a-register digits (omega arith)

hash_crc32-hash_crc32a_example : hash_crc32 digits ≡ hash_crc32a digits / 2 ^ 16 % 2 ^ 15
hash_crc32-hash_crc32a_example = hash_crc32-hash_crc32a digits (omega arith)

hash_crc16-register_example : hash_crc16 digits % 2 ^ 16 ≡ Crc16.register 0 digits
hash_crc16-register_example = hash_crc16-register digits (omega arith)

hash_fnv1a_64-wide_example :
    hash_fnv1a_64 (107 ∷ 7 ∷ []) ≡ fnv1a_wide fnv_64_init (107 ∷ 7 ∷ []) % 2 ^ 32
hash_fnv1a_64-wide_example = hash_fnv1a_64-wide (107 ∷ 7 ∷ []) (omega arith, (omega arith, tt))

fnv1a_wide_octets : fnv1a_wide fnv_64_init (200 ∷ 7 ∷ []) % 2 ^ 32 ≡ 0xb72cdc10
unfolding fnv1a_wide
fnv1a_wide_octets = refl

-- An octet above 127 is extended with its sign.
hash_fnv1a_64_octets : hash_fnv1a_64 (200 ∷ 7 ∷ []) ≡ 0x4b487d10
unfolding hash_fnv1a_64 fnv1a_64_loop
hash_fnv1a_64_octets = refl

hash_fnv1a_32-ne_example :
    hash_fnv1a_32 ((1 ∷ []) ++ 2 ∷ 9 ∷ []) ≢ hash_fnv1a_32 ((1 ∷ []) ++ 3 ∷ 9 ∷ [])
hash_fnv1a_32-ne_example =
    hash_fnv1a_32-ne (1 ∷ []) (9 ∷ []) 2 3 (omega arith) (omega arith) (omega arith) (omega arith)

one_at_a_time_a : hash_one_at_a_time (97 ∷ []) ≡ 0xca2e9442
unfolding hash_one_at_a_time one_at_a_time_loop
one_at_a_time_a = refl

hash_jenkins-same_example : hash_jenkins 8 (λ i. i % 256) 20 ≡ hash_jenkins 5 (λ i. i % 128) 20
hash_jenkins-same_example =
    hash_jenkins-same 8 5 (λ i. i % 256) (λ i. i % 128) 20 (λ i. omega arith) (λ i. omega arith)
      (λ i lt. omega arith)

hash_one_at_a_time-ne_example :
    hash_one_at_a_time ((1 ∷ []) ++ 2 ∷ 9 ∷ []) ≢ hash_one_at_a_time ((1 ∷ []) ++ 3 ∷ 9 ∷ [])
hash_one_at_a_time-ne_example =
    hash_one_at_a_time-ne (1 ∷ []) (9 ∷ []) 2 3 (omega arith) (omega arith) (omega arith)
      (omega arith)

-- The exact quotient, cut to an integer.
abbrev exact : ℕ → ℕ → ℕ
exact n d = n * 2 ^ 31 / d

exact_grows : (n d : ℕ) → 0 < d → d ≤ 2 ^ 31 → n ≤ exact n d
exact_grows n d positive le = (le-div_iff_mul-le positive).1 (mul-le-mul_left n le)

hash_jump_consistent-lt_example :
    (r : ℕ) × (hash_jump_consistent exact 10 7 (pos 10) ≡ some r) × (r < 10)
hash_jump_consistent-lt_example =
    hash_jump_consistent-lt exact exact_grows 10 7 10 (omega arith) (omega arith) (omega arith)

hash_jump_consistent-suc_example :
    (hash_jump_consistent exact 11 7 (pos 11) ≡ hash_jump_consistent exact 11 7 (pos 10))
    ⊎ (hash_jump_consistent exact 11 7 (pos 11) ≡ some 10)
hash_jump_consistent-suc_example =
    hash_jump_consistent-suc exact exact_grows 11 7 10 (omega arith) (omega arith)
