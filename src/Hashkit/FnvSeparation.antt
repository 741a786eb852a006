-- ===== src/Hashkit/FnvSeparation.antt =====
-- Keys that differ in one byte have different FNV-1a hashes.
use timeseries_database.Base.{
  ℕ, ◌^◌, ◌<◌, ◌≡◌, ◌≢◌, refl, ap, sym, ◌∙◌, List, [], ◌∷◌, ◌++◌, arith, bit_xor, mul32, sext32,
}
use timeseries_database.Base.Bits.{xor-lt, xor_assoc, xor_self, zero-xor, xor-zero}
use timeseries_database.Base.Bytes.{IsBytes}
use timeseries_database.Hashkit.Fnv.{fnv_32_init, fnv_32_prime, fnv1a_32_loop, hash_fnv1a_32}

xor_cancel : (h a b : ℕ) → bit_xor h a ≡ bit_xor h b → a ≡ b
xor_cancel h a b e = sym (undo a) ∙ ap (bit_xor h) e ∙ undo b
  where
    undo : (a : ℕ) → bit_xor h (bit_xor h a) ≡ a
    undo a = rw (← xor_assoc h h a, xor_self h, zero-xor a)

xor_cancel_right : (c a b : ℕ) → bit_xor a c ≡ bit_xor b c → a ≡ b
xor_cancel_right c a b e = sym (undo a) ∙ ap (λ t. bit_xor t c) e ∙ undo b
  where
    undo : (a : ℕ) → bit_xor (bit_xor a c) c ≡ a
    undo a = rw (xor_assoc a c c, xor_self c, xor-zero a)

-- The prime is odd, so multiplying by it loses nothing: 899433627 is its inverse.
prime_cancel :
    (a b : ℕ) → a < 2 ^ 32 → b < 2 ^ 32 → mul32 a fnv_32_prime ≡ mul32 b fnv_32_prime → a ≡ b
prime_cancel a b ha hb e = sym (undo a ha) ∙ ap (λ t. mul32 t 899433627) e ∙ undo b hb
  where
    undo : (a : ℕ) → a < 2 ^ 32 → mul32 (mul32 a fnv_32_prime) 899433627 ≡ a
    undo a h = omega arith

pub sext32-lt : (c : ℕ) → c < 256 → sext32 c < 2 ^ 32
sext32-lt c h = ground arith

pub sext32_cancel : (a b : ℕ) → a < 256 → b < 256 → sext32 a ≡ sext32 b → a ≡ b
sext32_cancel a b ha hb e = ground arith

-- One round of the loop.
abbrev round : ℕ → ℕ → ℕ
round hash c = mul32 (bit_xor hash (sext32 c)) fnv_32_prime

round-lt : (hash c : ℕ) → round hash c < 2 ^ 32
round-lt hash c = omega arith

mixed-lt : (hash c : ℕ) → hash < 2 ^ 32 → c < 256 → bit_xor hash (sext32 c) < 2 ^ 32
mixed-lt hash c h hc = xor-lt 32 hash (sext32 c) h (sext32-lt c hc)

-- The rest of the key keeps apart what the hashes of the parts before it were.
loop_cancel :
    (key : List ℕ) (g h : ℕ)
    → IsBytes key
    → g < 2 ^ 32
    → h < 2 ^ 32
    → fnv1a_32_loop g key ≡ fnv1a_32_loop h key
    → g ≡ h
unfolding fnv1a_32_loop
loop_cancel [] g h bytes hg hh e = e
loop_cancel (c ∷ key) g h (hc, hk) hg hh e = xor_cancel_right (sext32 c) g h (
    prime_cancel _ _ (mixed-lt g c hg hc) (mixed-lt h c hh hc)
      (loop_cancel key (round g c) (round h c) hk (round-lt g c) (round-lt h c) e))

loop-append :
    (p q : List ℕ) (hash : ℕ) → fnv1a_32_loop hash (p ++ q) ≡ fnv1a_32_loop (fnv1a_32_loop hash p) q
unfolding fnv1a_32_loop
loop-append [] q hash = refl
loop-append (c ∷ p) q hash = loop-append p q (round hash c)

loop-lt : (key : List ℕ) (hash : ℕ) → hash < 2 ^ 32 → fnv1a_32_loop hash key < 2 ^ 32
unfolding fnv1a_32_loop
loop-lt [] hash h = h
loop-lt (c ∷ key) hash h = loop-lt key (round hash c) (round-lt hash c)

-- Two keys that differ in exactly one byte, with bytes after it, have different hash_fnv1a_32
-- hashes.
pub hash_fnv1a_32-ne :
    (before after : List ℕ) (a b : ℕ)
    → IsBytes after
    → a < 256
    → b < 256
    → a ≢ b
    → hash_fnv1a_32 (before ++ a ∷ after) ≢ hash_fnv1a_32 (before ++ b ∷ after)
unfolding hash_fnv1a_32
hash_fnv1a_32-ne before after a b bytes ha hb ne e = ne (
    sext32_cancel a b ha hb (
      xor_cancel start (sext32 a) (sext32 b)
        (prime_cancel _ _ (mixed-lt start a small ha) (mixed-lt start b small hb) rounds)))
  where
    start : ℕ
    start = fnv1a_32_loop fnv_32_init before

    small : start < 2 ^ 32
    small = loop-lt before fnv_32_init (omega arith)

    rounds : round start a ≡ round start b
    rounds =
        loop_cancel after (round start a) (round start b) bytes (round-lt start a)
          (round-lt start b)
          (unfold fnv1a_32_loop in
            sym (loop-append before (a ∷ after) fnv_32_init)
            ∙ e
            ∙ loop-append before (b ∷ after) fnv_32_init)
