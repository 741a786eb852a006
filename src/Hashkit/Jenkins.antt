-- ===== src/Hashkit/Jenkins.antt =====
-- `hash_jenkins` of hashkit.c, with its macros `rot`, `mix` and `final`.
use timeseries_database.Base.{
  ℕ, zero, suc, ◌+◌, ◌*◌, ◌-◌, ◌^◌, ◌||◌, ltb, ◌==◌, if◌then◌else◌, bit_and, bit_or, bit_xor, u32,
  add32, sub32, shl32, ◌>>>◌,
}

-- The internal state.
pub data State : Type 0 where
  abc : (a b c : ℕ) → State

unfoldable pub rot : ℕ → ℕ → ℕ
rot x k = bit_or (shl32 x k) (x >>> (32 - k))

unfoldable pub mix : State → State
mix (abc a b c) =
    let a = sub32 a c in
    let a = bit_xor a (rot c 4) in
    let c = add32 c b in
    let b = sub32 b a in
    let b = bit_xor b (rot a 6) in
    let a = add32 a c in
    let c = sub32 c b in
    let c = bit_xor c (rot b 8) in
    let b = add32 b a in
    let a = sub32 a c in
    let a = bit_xor a (rot c 16) in
    let c = add32 c b in
    let b = sub32 b a in
    let b = bit_xor b (rot a 19) in
    let a = add32 a c in
    let c = sub32 c b in let c = bit_xor c (rot b 4) in let b = add32 b a in abc a b c

unfoldable pub final : State → ℕ
final (abc a b c) =
    let c = bit_xor c b in
    let c = sub32 c (rot b 14) in
    let a = bit_xor a c in
    let a = sub32 a (rot c 11) in
    let b = bit_xor b a in
    let b = sub32 b (rot a 25) in
    let c = bit_xor c b in
    let c = sub32 c (rot b 16) in
    let a = bit_xor a c in
    let a = sub32 a (rot c 4) in
    let b = bit_xor b a in let b = sub32 b (rot a 14) in let c = bit_xor c b in sub32 c (rot b 24)

-- The bytes at a key's address and after it.
abbrev pub Memory : Type 0
Memory = ℕ → ℕ

-- What a little-endian machine reads as a `uint16_t` and as a `uint32_t`.
abbrev pub half_word : Memory → ℕ → ℕ
half_word k i = k i + k (i + 1) * 2 ^ 8

abbrev pub word : Memory → ℕ → ℕ
word k i = k i + k (i + 1) * 2 ^ 8 + k (i + 2) * 2 ^ 16 + k (i + 3) * 2 ^ 24

-- Both halves of a word, as the code for 16-bit chunks reads it.
abbrev pub halves : Memory → ℕ → ℕ
halves k i = add32 (half_word k i) (shl32 (half_word k (i + 2)) 16)

-- Four bytes, one after the other, as the code for single bytes adds them.
abbrev pub add_bytes : ℕ → Memory → ℕ → ℕ
add_bytes x k i =
    add32 (add32 (add32 (add32 x (k i)) (shl32 (k (i + 1)) 8)) (shl32 (k (i + 2)) 16))
      (shl32 (k (i + 3)) 24)

-- The body of each of the three loops: it takes the 12 bytes from offset `p`.
unfoldable pub block32 : Memory → ℕ → State → State
block32 k p (abc a b c) =
    abc (add32 a (word k p)) (add32 b (word k (p + 4))) (add32 c (word k (p + 8)))

unfoldable pub block16 : Memory → ℕ → State → State
block16 k p (abc a b c) =
    abc (add32 a (halves k p)) (add32 b (halves k (p + 4))) (add32 c (halves k (p + 8)))

unfoldable pub block8 : Memory → ℕ → State → State
block8 k p (abc a b c) = abc (add_bytes a k p) (add_bytes b k (p + 4)) (add_bytes c k (p + 8))

-- What each of the three `switch` statements adds to a word of the state, when `n` bytes of the
-- key are left for that word and those after it.
unfoldable pub chunk32 : Memory → ℕ → ℕ → ℕ → ℕ
chunk32 k i zero x = x
chunk32 k i (suc zero) x = add32 x (bit_and (word k i) 0xff)
chunk32 k i (suc (suc zero)) x = add32 x (bit_and (word k i) 0xffff)
chunk32 k i (suc (suc (suc zero))) x = add32 x (bit_and (word k i) 0xffffff)
chunk32 k i (suc (suc (suc (suc _)))) x = add32 x (word k i)

unfoldable pub chunk16 : Memory → ℕ → ℕ → ℕ → ℕ
chunk16 k i zero x = x
chunk16 k i (suc zero) x = add32 x (k i)
chunk16 k i (suc (suc zero)) x = add32 x (half_word k i)
chunk16 k i (suc (suc (suc zero))) x = add32 (add32 x (shl32 (k (i + 2)) 16)) (half_word k i)
chunk16 k i (suc (suc (suc (suc _)))) x = add32 x (halves k i)

unfoldable pub chunk8 : Memory → ℕ → ℕ → ℕ → ℕ
chunk8 k i zero x = x
chunk8 k i (suc zero) x = add32 x (k i)
chunk8 k i (suc (suc zero)) x = add32 (add32 x (shl32 (k (i + 1)) 8)) (k i)
chunk8 k i (suc (suc (suc zero))) x =
    add32 (add32 (add32 x (shl32 (k (i + 2)) 16)) (shl32 (k (i + 1)) 8)) (k i)
chunk8 k i (suc (suc (suc (suc _)))) x =
    add32
      (add32 (add32 (add32 x (shl32 (k (i + 3)) 24)) (shl32 (k (i + 2)) 16)) (shl32 (k (i + 1)) 8))
      (k i)

-- A `switch`, with the rest of the function: `n` bytes are left from offset `p` on.
unfoldable pub last : (chunk : ℕ → ℕ → ℕ → ℕ) → ℕ → ℕ → State → ℕ
last chunk p n (abc a b c) =
    if (n == 0) || ltb 12 n
    then c
    else final (abc (chunk p n a) (chunk (p + 4) (n - 4) b) (chunk (p + 8) (n - 8) c))

-- The three loops differ in the chunks that they read.
unfoldable pub jenkins_loop :
    (block : ℕ → State → State) (chunk : ℕ → ℕ → ℕ → ℕ) → ℕ → ℕ → ℕ → State → ℕ
jenkins_loop block chunk zero p length s = last chunk p length s
jenkins_loop block chunk (suc fuel) p length s =
    let rest = jenkins_loop block chunk fuel (p + 12) (length - 12) (mix (block p s)) in
    if ltb 12 length then rest else last chunk p length s

-- `key` is the address, `k` the memory from there on.
unfoldable pub hash_jenkins : (key : ℕ) → Memory → ℕ → ℕ
hash_jenkins key k length =
    let init = add32 (add32 0xdeadbeef (u32 length)) 13 in
    let s = abc init init init in
    if bit_and key 3 == 0
    then jenkins_loop (block32 k) (chunk32 k) length 0 length s
    else (if bit_and key 1 == 0
        then jenkins_loop (block16 k) (chunk16 k) length 0 length s
        else jenkins_loop (block8 k) (chunk8 k) length 0 length s)
