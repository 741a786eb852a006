-- ===== src/Hashkit/Jump.antt =====
-- `hash_jump_consistent` of hashkit.c: which bucket a key goes to.
use timeseries_database.Base.{
  ℕ, zero, suc, ◌+◌, ◌*◌, ◌^◌, ◌≤◌, ◌<◌, ◌≡◌, ap, sym, ◌∙◌, ◌⊎◌, inl, inr, ltb, if◌then◌else◌,
  Bool-cases, ltb→lt, lt→ltb, le→ltb, Option, none, some, u32, u64, ◌>>>◌, arith,
}
use timeseries_database.Base.Int.{ℤ, pos, negsuc}

-- A negative `b` is returned as its absolute value.
abbrev pub bucket : Option ℤ → Option ℕ
bucket none = none
bucket (some (pos b)) = some (u32 b)
bucket (some (negsuc b)) = some (u32 (b + 1))

-- `jump n d` is n * (2^31 / d) in `double`, cut to an integer.
module _ (jump : (n d : ℕ) → ℕ) where
  -- The loop, with `none` for more rounds than fuel.
  unfoldable pub jump_loop : ℕ → ℕ → ℤ → ℕ → ℕ → Option ℤ
  jump_loop zero key b j num_buckets = if ltb j num_buckets then none else some b
  jump_loop (suc fuel) key b j num_buckets =
      let next = u64 (key * 2862933555777941757 + 1) in
      let rest = jump_loop fuel next (pos j) (jump (j + 1) ((next >>> 33) + 1)) num_buckets in
      if ltb j num_buckets then rest else some b

  -- The first `b` is -1. No candidate is below a negative number of buckets.
  unfoldable pub hash_jump_consistent : ℕ → ℕ → ℤ → Option ℕ
  unfolding jump_loop
  hash_jump_consistent fuel key (negsuc n) = bucket (some (negsuc 0))
  hash_jump_consistent fuel key (pos n) = bucket (jump_loop fuel key (negsuc 0) 0 n)

-- A quotient of at least 1 makes each candidate larger than the one before it.
module _ (jump : (n d : ℕ) → ℕ) (grows : (n d : ℕ) → 0 < d → d ≤ 2 ^ 31 → n ≤ jump n d) where
  abbrev next_key : ℕ → ℕ
  next_key key = u64 (key * 2862933555777941757 + 1)

  abbrev next_j : ℕ → ℕ → ℕ
  next_j key j = jump (j + 1) ((next_key key >>> 33) + 1)

  next_j-lt : (key j : ℕ) → j < next_j key j
  next_j-lt key j =
      omega (arith, grows (j + 1) ((next_key key >>> 33) + 1) (omega arith) (omega arith))

  module _ (n : ℕ) where
    again :
        (fuel key : ℕ) (b : ℤ) (j : ℕ)
        → j < n
        → jump_loop jump (suc fuel) key b j n
          ≡ jump_loop jump fuel (next_key key) (pos j) (next_j key j) n
    unfolding jump_loop
    again fuel key b j lt = rw (lt→ltb j n lt)

    stop : (fuel key : ℕ) (b : ℤ) (j : ℕ) → n ≤ j → jump_loop jump fuel key b j n ≡ some b
    unfolding jump_loop
    stop zero key b j le = rw (le→ltb j n le)
    stop (suc fuel) key b j le = rw (le→ltb j n le)

  jump_loop-lt :
      (fuel key b j n : ℕ)
      → b < n
      → n ≤ fuel + j
      → (r : ℕ) × (jump_loop jump fuel key (pos b) j n ≡ some (pos r)) × (r < n)
  jump_loop-lt zero key b j n lt enough = (b, stop n zero key (pos b) j (omega arith), lt)
  jump_loop-lt (suc fuel) key b j n lt enough = elim (Bool-cases (ltb j n)) [
    | inl more ↦
        let later = next_j-lt key j in
        let (r, e, small) =
          jump_loop-lt fuel (next_key key) j (next_j key j) n (ltb→lt j n more) (omega arith) in
        (r, again n fuel key (pos b) j (ltb→lt j n more) ∙ e, small)
    | inr done ↦ (b, stop n (suc fuel) key (pos b) j (ground arith), lt)
  ]

  jump_loop-suc :
      (fuel key : ℕ) (b : ℤ) (j n : ℕ)
      → n + 1 ≤ fuel + j
      → (jump_loop jump fuel key b j (n + 1) ≡ jump_loop jump fuel key b j n)
        ⊎ (jump_loop jump fuel key b j (n + 1) ≡ some (pos n))
  jump_loop-suc zero key b j n enough =
      inl (stop (n + 1) zero key b j (omega arith) ∙ sym (stop n zero key b j (omega arith)))
  jump_loop-suc (suc fuel) key b j n enough =
      let later = next_j-lt key j in
      elim (Bool-cases (ltb j n)) [
        | inl more ↦
            let lt = ltb→lt j n more in
            elim (jump_loop-suc fuel (next_key key) (pos j) (next_j key j) n (omega arith)) [
              | inl e ↦
                  inl (again (n + 1) fuel key b j (omega arith) ∙ e ∙ sym (again n fuel key b j lt))
              | inr e ↦ inr (again (n + 1) fuel key b j (omega arith) ∙ e)
            ]
        | inr last ↦ elim (Bool-cases (ltb n j)) [
          | inl beyond ↦
              let lt = ltb→lt n j beyond in
              inl (
                stop (n + 1) (suc fuel) key b j (omega arith)
                ∙ sym (stop n (suc fuel) key b j (omega arith)))
          | inr here ↦
              let same : j ≡ n = ground arith in
              inr (
                again (n + 1) fuel key b j (omega arith)
                ∙ stop (n + 1) fuel (next_key key) (pos j) (next_j key j) (omega arith)
                ∙ ap (λ i. some (pos i)) same)
        ]
      ]

  -- With at least one bucket, and at least as much fuel as buckets, the loop ends and the result
  -- is one of the buckets. Each quotient is at least 1.
  pub hash_jump_consistent-lt :
      (fuel key n : ℕ)
      → 0 < n
      → n ≤ fuel
      → n < 2 ^ 31
      → (r : ℕ) × (hash_jump_consistent jump fuel key (pos n) ≡ some r) × (r < n)
  unfolding hash_jump_consistent
  hash_jump_consistent-lt zero key n positive enough int = absurd (omega arith)
  hash_jump_consistent-lt (suc fuel) key n positive enough int =
      let later = next_j-lt key 0 in
      let (r, e, small) =
        jump_loop-lt fuel (next_key key) 0 (next_j key 0) n positive (omega arith) in
      let low : u32 r ≡ r = omega arith in
      (r, ap bucket (again n fuel key (negsuc 0) 0 positive ∙ e) ∙ ap some low, small)

  -- When a bucket is added, a key stays where it is or goes to the new one. Each quotient is at
  -- least 1, and the fuel at least the number of buckets, an int32_t.
  pub hash_jump_consistent-suc :
      (fuel key n : ℕ)
      → n + 1 ≤ fuel
      → n + 1 < 2 ^ 31
      → (hash_jump_consistent jump fuel key (pos (n + 1))
          ≡ hash_jump_consistent jump fuel key (pos n))
        ⊎ (hash_jump_consistent jump fuel key (pos (n + 1)) ≡ some n)
  unfolding hash_jump_consistent
  hash_jump_consistent-suc fuel key n enough int =
      elim (jump_loop-suc fuel key (negsuc 0) 0 n (omega arith)) [
        | inl e ↦ inl (ap (bucket) e)
        | inr e ↦ (let low : u32 n ≡ n = omega arith in inr (ap bucket e ∙ ap some low))
      ]
