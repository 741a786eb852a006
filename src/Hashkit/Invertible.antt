-- ===== src/Hashkit/Invertible.antt =====
-- Steps of the hash functions that lose nothing: each has its equal results from equal words.
use timeseries_database.Base.{
  ℕ, zero, suc, ◌/◌, ◌^◌, ◌<◌, ◌≤◌, ◌≡◌, refl, ap, sym, ◌∙◌, arith, bit_xor, ◌>>>◌, add32, mul32,
  shl32,
}
use timeseries_database.Base.Bits.{
  xor_assoc, xor_self, xor-zero, zero-xor, xor_interchange, xor-div_pow, pow-double, xor-lt,
}
use native.Mathlib.Nat.{one-le-pow, div-lt_self, div-le_self}

-- Two words whose exclusive or is 0 are equal.
xor_move : (a b : ℕ) → bit_xor a b ≡ 0 → a ≡ b
xor_move a b e =
    sym (xor-zero a)
    ∙ ap (bit_xor a) (sym (xor_self b))
    ∙ sym (xor_assoc a b b)
    ∙ ap (λ t. bit_xor t b) e
    ∙ zero-xor b

zero_of_shift : (k d : ℕ) → d ≡ d / 2 ^ suc k → d ≡ 0
zero_of_shift k zero e = refl
zero_of_shift k (suc d) e =
    let one : 1 ≤ 2 ^ k = one-le-pow k 2 (omega arith) in
    let two : 1 < 2 ^ suc k = omega (arith, pow-double k, one) in
    let less : suc d / 2 ^ suc k < suc d = div-lt_self (omega arith) two in
    absurd (omega (arith, e, less))

-- `x ^= x >> k`
pub xorshift_cancel : (k a b : ℕ) → bit_xor a (a >>> suc k) ≡ bit_xor b (b >>> suc k) → a ≡ b
xorshift_cancel k a b e = xor_move a b (zero_of_shift k _ shifted)
  where
    both : bit_xor (bit_xor a b) (bit_xor a b >>> suc k) ≡ 0
    both =
        ap (bit_xor (bit_xor a b)) (xor-div_pow (suc k) a b)
        ∙ xor_interchange a b (a >>> suc k) (b >>> suc k)
        ∙ ap (λ t. bit_xor t (bit_xor b (b >>> suc k))) e
        ∙ xor_self (bit_xor b (b >>> suc k))

    shifted : bit_xor a b ≡ bit_xor a b / 2 ^ suc k
    shifted = xor_move _ _ both

-- An operation on words that another one undoes.
undone :
    (f g : ℕ → ℕ)
    → ((a : ℕ) → a < 2 ^ 32 → g (f a) ≡ a)
    → (a b : ℕ) → a < 2 ^ 32
    → b < 2 ^ 32
    → f a ≡ f b
    → a ≡ b
undone f g undo a b ha hb e = sym (undo a ha) ∙ ap g e ∙ undo b hb

-- `x += x << k` multiplies by an odd number.
abbrev pub add_shift : ℕ → ℕ → ℕ
add_shift k a = add32 a (shl32 a k)

module _ (a b : ℕ) (ha : a < 2 ^ 32) (hb : b < 2 ^ 32) where
  pub add_shift3_cancel : add_shift 3 a ≡ add_shift 3 b → a ≡ b
  add_shift3_cancel = undone (add_shift 3) (λ t. mul32 t 954437177) (λ a h. omega arith) a b ha hb

  pub add_shift10_cancel : add_shift 10 a ≡ add_shift 10 b → a ≡ b
  add_shift10_cancel =
      undone (add_shift 10) (λ t. mul32 t 3222273025) (λ a h. omega arith) a b ha hb

  pub add_shift15_cancel : add_shift 15 a ≡ add_shift 15 b → a ≡ b
  add_shift15_cancel =
      undone (add_shift 15) (λ t. mul32 t 1073709057) (λ a h. omega arith) a b ha hb

pub add32_cancel :
    (c a b : ℕ) → c < 2 ^ 32 → a < 2 ^ 32 → b < 2 ^ 32 → add32 c a ≡ add32 c b → a ≡ b
add32_cancel c a b hc ha hb e = omega arith

pub xorshift-lt : (k a : ℕ) → a < 2 ^ 32 → bit_xor a (a >>> k) < 2 ^ 32
xorshift-lt k a h = xor-lt 32 a (a >>> k) h (omega (arith, div-le_self a (2 ^ k)))
