-- ===== src/Hashkit/JenkinsAlignment.antt =====
-- `hash_jenkins` does not depend on the address of the key.
use timeseries_database.Base.{
  ℕ, zero, suc, ◌+◌, ◌-◌, ◌*◌, ◌^◌, ◌≤◌, ◌<◌, ◌≡◌, refl, sym, ap, ◌∙◌, ltb, ◌==◌, ◌||◌, bit_and,
  arith, Bool-cases, inl, inr, ltb→lt, add32, u32,
}
use timeseries_database.Base.Masks.{and_mask}
use timeseries_database.Hashkit.Jenkins.{
  State, abc, add_bytes, halves, mix, Memory, word, block32, block16, block8, chunk32, chunk16,
  chunk8, last, jenkins_loop, hash_jenkins,
}

-- Chunks of 16 and of 32 bits add what the single bytes add.
module _ (k : Memory) (bytes : (i : ℕ) → k i < 256) where
  halves-word : (i : ℕ) → halves k i ≡ word k i
  halves-word i =
      let third : i + 2 + 1 ≡ i + 3 = omega arith in
      omega (arith, ap k third, bytes i, bytes (i + 1), bytes (i + 2), bytes (i + 3))

  add-word : (i x : ℕ) → add32 x (word k i) ≡ add_bytes x k i
  add-word i x = omega (arith, bytes i, bytes (i + 1), bytes (i + 2), bytes (i + 3))

  add-halves : (i x : ℕ) → add32 x (halves k i) ≡ add_bytes x k i
  add-halves i x = ap (add32 x) (halves-word i) ∙ add-word i x

  chunk16-chunk8 : (i n x : ℕ) → chunk16 k i n x ≡ chunk8 k i n x
  unfolding chunk16 chunk8
  chunk16-chunk8 i zero x = refl
  chunk16-chunk8 i (suc zero) x = refl
  chunk16-chunk8 i (suc (suc zero)) x = omega (arith, bytes i, bytes (i + 1))
  chunk16-chunk8 i (suc (suc (suc zero))) x = omega (arith, bytes i, bytes (i + 1), bytes (i + 2))
  chunk16-chunk8 i (suc (suc (suc (suc _)))) x =
      ap (add32 x) (halves-word i)
      ∙ omega (arith, bytes i, bytes (i + 1), bytes (i + 2), bytes (i + 3))

  low_bytes :
      (i : ℕ)
      → (bit_and (word k i) 0xff ≡ k i)
        × (bit_and (word k i) 0xffff ≡ k i + k (i + 1) * 2 ^ 8)
        × (bit_and (word k i) 0xffffff ≡ k i + k (i + 1) * 2 ^ 8 + k (i + 2) * 2 ^ 16)
  low_bytes i = (
    omega (arith, and_mask 8 (word k i), bytes i),
    omega (arith, and_mask 16 (word k i), bytes i, bytes (i + 1)),
    omega (arith, and_mask 24 (word k i), bytes i, bytes (i + 1), bytes (i + 2)),
  )

  chunk32-chunk8 : (i n x : ℕ) → chunk32 k i n x ≡ chunk8 k i n x
  unfolding chunk32 chunk8
  chunk32-chunk8 i zero x = refl
  chunk32-chunk8 i (suc zero) x = rw (low_bytes i).0
  chunk32-chunk8 i (suc (suc zero)) x =
      ap (add32 x) (low_bytes i).1 ∙ omega (arith, bytes i, bytes (i + 1))
  chunk32-chunk8 i (suc (suc (suc zero))) x =
      ap (add32 x) (low_bytes i).2 ∙ omega (arith, bytes i, bytes (i + 1), bytes (i + 2))
  chunk32-chunk8 i (suc (suc (suc (suc _)))) x =
      omega (arith, bytes i, bytes (i + 1), bytes (i + 2), bytes (i + 3))

  block16-block8 : (p : ℕ) (s : State) → block16 k p s ≡ block8 k p s
  unfolding block16 block8
  block16-block8 p (abc a b c) = rw (add-halves p a, add-halves (p + 4) b, add-halves (p + 8) c)

  block32-block8 : (p : ℕ) (s : State) → block32 k p s ≡ block8 k p s
  unfolding block32 block8
  block32-block8 p (abc a b c) = rw (add-word p a, add-word (p + 4) b, add-word (p + 8) c)

-- The single bytes are those below the end of the key.
module _ (k k' : Memory) (total : ℕ) (same : (i : ℕ) → i < total → k i ≡ k' i) where
  add_bytes-same : (i x : ℕ) → i + 4 ≤ total → add_bytes x k i ≡ add_bytes x k' i
  add_bytes-same i x le = rw (
    same i (omega arith),
    same (i + 1) (omega arith),
    same (i + 2) (omega arith),
    same (i + 3) (omega arith),
  )

  block8-same : (p : ℕ) (s : State) → p + 12 ≤ total → block8 k p s ≡ block8 k' p s
  unfolding block8
  block8-same p (abc a b c) le = rw (
    add_bytes-same p a (omega arith),
    add_bytes-same (p + 4) b (omega arith),
    add_bytes-same (p + 8) c (omega arith),
  )

  chunk8-same : (i n x : ℕ) → (0 < n → i + n ≤ total) → chunk8 k i n x ≡ chunk8 k' i n x
  unfolding chunk8
  chunk8-same i zero x le = refl
  chunk8-same i (suc zero) x le = rw (same i (omega (arith, le (omega arith))))
  chunk8-same i (suc (suc zero)) x le =
      let end = le (omega arith) in rw (same i (omega arith), same (i + 1) (omega arith))
  chunk8-same i (suc (suc (suc zero))) x le =
      let end = le (omega arith) in
      rw (same i (omega arith), same (i + 1) (omega arith), same (i + 2) (omega arith))
  chunk8-same i (suc (suc (suc (suc n)))) x le =
      let end = le (omega arith) in
      rw (
        same i (omega arith),
        same (i + 1) (omega arith),
        same (i + 2) (omega arith),
        same (i + 3) (omega arith),
      )

-- Loops whose bodies and switches agree below the end of the key agree.
module _ (total : ℕ) {block block' : ℕ → State → State} {chunk chunk' : ℕ → ℕ → ℕ → ℕ}
    (blocks : (p : ℕ) (s : State) → p + 12 ≤ total → block p s ≡ block' p s)
    (chunks : (i n x : ℕ) → (0 < n → i + n ≤ total) → chunk i n x ≡ chunk' i n x) where
  last-same : (p n : ℕ) (s : State) → p + n ≤ total → last chunk p n s ≡ last chunk' p n s
  unfolding last
  last-same p n (abc a b c) le = elim (Bool-cases ((n == 0) || ltb 12 n)) [
    | inl e ↦ rw e
    | inr e ↦ rw (
      e,
      chunks p n a (λ _. le),
      chunks (p + 4) (n - 4) b (λ h. omega arith),
      chunks (p + 8) (n - 8) c (λ h. omega arith),
    )
  ]

  loop-same :
      (fuel p n : ℕ) (s : State)
      → p + n ≤ total
      → jenkins_loop block chunk fuel p n s ≡ jenkins_loop block' chunk' fuel p n s
  unfolding jenkins_loop
  loop-same zero p n s le = last-same p n s le
  loop-same (suc fuel) p n s le = elim (Bool-cases (ltb 12 n)) [
    | inl more ↦
        let lt = ltb→lt 12 n more in
        rw (
          more,
          blocks p s (omega arith),
          loop-same fuel (p + 12) (n - 12) (mix (block' p s)) (omega arith),
        )
    | inr rest ↦ rw (rest, last-same p n s le)
  ]

-- Any alignment computes what the single bytes give.
module _ (k : Memory) (length : ℕ) (bytes : (i : ℕ) → k i < 256) where
  abbrev hash_bytes : ℕ
  hash_bytes =
      let init = add32 (add32 0xdeadbeef (u32 length)) 13 in
      jenkins_loop (block8 k) (chunk8 k) length 0 length (abc init init init)

  hash_jenkins-hash_bytes : (key : ℕ) → hash_jenkins key k length ≡ hash_bytes
  unfolding hash_jenkins
  hash_jenkins-hash_bytes key =
      let init = add32 (add32 0xdeadbeef (u32 length)) 13 in
      let s = abc init init init in
      let le : 0 + length ≤ length = omega arith in
      elim (Bool-cases (bit_and key 3 == 0)) [
        | inl e ↦ rw (
          e,
          loop-same length (λ p s _. block32-block8 k bytes p s)
              (λ i n x _. chunk32-chunk8 k bytes i n x) length 0 length s le,
        )
        | inr e ↦ elim (Bool-cases (bit_and key 1 == 0)) [
          | inl e' ↦ rw (
            e,
            e',
            loop-same length (λ p s _. block16-block8 k bytes p s)
                (λ i n x _. chunk16-chunk8 k bytes i n x) length 0 length s le,
          )
          | inr e' ↦ rw (e, e')
        ]
      ]

-- The hash of a key depends on its bytes only: not on the alignment of its address, and not on
-- what stands in memory after it, which the code for 32-bit chunks reads too.
pub hash_jenkins-same :
    (key key' : ℕ) (k k' : Memory) (length : ℕ)
    → ((i : ℕ) → k i < 256)
    → ((i : ℕ) → k' i < 256)
    → ((i : ℕ) → i < length → k i ≡ k' i)
    → hash_jenkins key k length ≡ hash_jenkins key' k' length
hash_jenkins-same key key' k k' length bytes bytes' same =
    let init = add32 (add32 0xdeadbeef (u32 length)) 13 in
    hash_jenkins-hash_bytes k length bytes key
    ∙ loop-same length (block8-same k k' length same) (chunk8-same k k' length same) length 0 length
        (abc init init init) (omega arith)
    ∙ sym (hash_jenkins-hash_bytes k' length bytes' key')
