-- ===== src/Util/Decimal.antt =====
-- `str_atoi` reads decimal numerals.
use timeseries_database.Base.{
  ℕ, zero, suc, ◌+◌, ◌-◌, ◌*◌, ◌/◌, ◌%◌, ◌^◌, ◌<◌, ◌≡◌, refl, ◌∙◌, none, some, true, false, ◌||◌,
  List, [], ◌∷◌, ltb, if◌then◌else◌, arith, Bool-cases, inl, inr, ltb→lt, lt→ltb, le→ltb, Bool,
}
use timeseries_database.Base.Int.{pos, negsuc}
use native.Mathlib.Nat.{pow-suc}
use timeseries_database.Util.{atoi_loop, str_atoi}

abbrev pub is_digit : ℕ → Bool
is_digit c = if ltb c 48 || ltb 57 c then false else true

-- The digits of a number, the highest first, in front of a text.
unfoldable pub digits : (places : ℕ) → ℕ → List ℕ → List ℕ
digits zero n rest = (48 + n) ∷ rest
digits (suc places) n rest =
    let longer = digits places (n / 10) ((48 + n % 10) ∷ rest) in
    if ltb n 10 then (48 + n) ∷ rest else longer

-- As many places as a number below 10^20 can have.
abbrev pub decimal : ℕ → List ℕ → List ℕ
decimal n rest = digits 19 n rest

loop-digit :
    (v d n : ℕ) (rest : List ℕ)
    → d < 10
    → v * 10 + d ≡ n
    → atoi_loop v ((48 + d) ∷ rest) ≡ (if ltb n (2 ^ 31) then atoi_loop n rest else none)
unfolding atoi_loop
loop-digit v d n rest lt e =
    let value : v * 10 + (48 + d - 48) ≡ n = omega arith in
    rw (le→ltb (48 + d) 48 (omega arith), le→ltb 57 (48 + d) (omega arith), value)

loop-digits :
    (places n : ℕ) (rest : List ℕ)
    → n < 10 ^ suc places
    → atoi_loop 0 (digits places n rest) ≡ (if ltb n (2 ^ 31) then atoi_loop n rest else none)
unfolding digits
loop-digits zero n rest small = loop-digit 0 n n rest small (omega arith)
loop-digits (suc places) n rest small =
    let power : 10 ^ suc (suc places) ≡ 10 ^ suc places * 10 = pow-suc 10 (suc places) in
    let higher = loop-digits places (n / 10) ((48 + n % 10) ∷ rest) (omega arith) in
    let lowest = loop-digit (n / 10) (n % 10) n rest (omega arith) (omega arith) in
    elim (Bool-cases (ltb n 10)) [
      | inl one ↦ rw one (loop-digit 0 n n rest (ltb→lt n 10 one) (omega arith))
      | inr more ↦ rw more (
          higher ∙ elim (Bool-cases (ltb (n / 10) (2 ^ 31))) [
            | inl small' ↦ rw small' lowest
            | inr large ↦ rw (large, le→ltb n (2 ^ 31) (ground arith))
          ])
    ]

str_atoi-loop :
    (places n : ℕ) (rest : List ℕ)
    → str_atoi (digits places n rest) ≡ atoi_loop 0 (digits places n rest)
unfolding str_atoi digits
str_atoi-loop zero n rest = refl
str_atoi-loop (suc places) n rest = elim (Bool-cases (ltb n 10)) [
  | inl one ↦ rw one refl
  | inr more ↦ rw more (str_atoi-loop places (n / 10) ((48 + n % 10) ∷ rest))
]

-- str_atoi of the decimal numeral of a number below 2^31 is the number; the numeral of a larger
-- number, of at most 20 digits, overflows an int.
pub str_atoi-decimal :
    (n : ℕ)
    → n < 10 ^ 20
    → str_atoi (decimal n []) ≡ (if ltb n (2 ^ 31) then some (pos n) else none)
unfolding atoi_loop
str_atoi-decimal n small = str_atoi-loop 19 n [] ∙ loop-digits 19 n [] small

-- A character that is no digit, after the numeral of a number below 2^31, makes the result -1.
pub str_atoi-error :
    (n c : ℕ) (rest : List ℕ)
    → n < 2 ^ 31
    → is_digit c ≡ false
    → str_atoi (decimal n (c ∷ rest)) ≡ some (negsuc 0)
unfolding atoi_loop
str_atoi-error n c rest small wrong =
    let bad : (ltb c 48 || ltb 57 c) ≡ true = ground arith in
    str_atoi-loop 19 n (c ∷ rest)
    ∙ loop-digits 19 n (c ∷ rest) (omega arith)
    ∙ rw (lt→ltb n (2 ^ 31) small, bad)
