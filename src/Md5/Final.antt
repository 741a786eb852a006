-- ===== src/Md5/Final.antt =====
-- md5_final, which pads what the buffer keeps in place.
use timeseries_database.Base.{
  ℕ, ◌+◌, ◌-◌, ◌*◌, ◌/◌, ◌%◌, ◌^◌, ◌<◌, ◌≤◌, ◌≡◌, refl, sym, ap, ◌∙◌, true, false, List, [], ◌∷◌,
  ◌++◌, length, drop, arith, ltb, Bool-cases, inl, inr, append_assoc, length-append, append-nil,
  bit_and, replicate, length-replicate, shl32,
}
use timeseries_database.Base.Pieces.{length-drop, drop-all, replicate-add}
use timeseries_database.Md5.{
  Md5Context, Words, copy_to, body, body_block, md5_final, digest, word_bytes,
}
use timeseries_database.Md5.Blocks.{body-append}
use timeseries_database.Md5.Pieces.{compress, Holds, Takes}
use timeseries_database.Md5.Update.{used_lem, copy_to-rest}
use timeseries_database.Md5.Padding.{
  bits, padded, digest_of, digest_of_lem, marked, length-marked, padded_lem, length-message,
}

bits_lem :
    (message : List ℕ) (ctx : Md5Context)
    → Takes message ctx
    → word_bytes (shl32 ctx.lo 3) ++ word_bytes ctx.hi ≡ bits (length message)
bits_lem message ctx takes =
    let lo : shl32 ctx.lo 3 ≡ length message * 8 % 2 ^ 32 =
      omega (arith, takes.counted, takes.lo_lt, takes.hi_lt) in
    let hi : ctx.hi ≡ length message * 8 / 2 ^ 32 % 2 ^ 32 =
      omega (arith, takes.counted, takes.lo_lt, takes.hi_lt) in
    ap (λ t. word_bytes t ++ word_bytes ctx.hi) lo
    ∙ ap (λ t. word_bytes (length message * 8 % 2 ^ 32) ++ word_bytes t) hi

copy_to-end :
    (front left xs : List ℕ)
    → length left ≤ length xs
    → copy_to (length front) xs (front ++ left) ≡ front ++ xs
copy_to-end front left xs h =
    copy_to-rest front left xs
    ∙ ap (λ t. front ++ xs ++ t) (drop-all (length xs) left h)
    ∙ append-nil (front ++ xs)

abbrev mark_in : (used : ℕ) → List ℕ → List ℕ
mark_in used buffer = copy_to used (0x80 ∷ []) buffer

abbrev zero_in : (used zeros : ℕ) → List ℕ → List ℕ
zero_in used zeros buffer = copy_to (used + 1) (replicate zeros 0) (mark_in used buffer)

-- The digest from the last block, and from the last two.
abbrev last_one : List ℕ → List ℕ → Words → List ℕ
last_one zeros number state = digest (body_block (copy_to 56 number zeros) state)

abbrev last_two : List ℕ → List ℕ → Words → List ℕ
last_two spill number state =
    last_one (copy_to 0 (replicate 56 0) spill) number (body_block spill state)

abbrev counter_bytes : Md5Context → List ℕ
counter_bytes ctx = word_bytes (shl32 ctx.lo 3) ++ word_bytes ctx.hi

md5_final-short :
    (ctx : Md5Context) (used : ℕ)
    → bit_and ctx.lo 0x3f ≡ used
    → used < 56
    → md5_final ctx
      ≡ last_one (zero_in used (64 - (used + 1) - 8) ctx.buffer) (counter_bytes ctx) ctx.state
unfolding md5_final
md5_final-short ctx used u lt =
    let e : ltb (64 - (used + 1)) 8 ≡ false = ground arith in rw (u, e) refl

md5_final-long :
    (ctx : Md5Context) (used : ℕ)
    → bit_and ctx.lo 0x3f ≡ used
    → 56 ≤ used
    → md5_final ctx
      ≡ last_two (zero_in used (64 - (used + 1)) ctx.buffer) (counter_bytes ctx) ctx.state
unfolding md5_final
md5_final-long ctx used u ge =
    let e : ltb (64 - (used + 1)) 8 ≡ true = ground arith in rw (u, e) refl

-- What is in the buffer once the padding starts.
zero_in-rest :
    (rest left : List ℕ) (zeros : ℕ)
    → zero_in (length rest) zeros (rest ++ left)
      ≡ marked rest ++ replicate zeros 0 ++ drop zeros (drop 1 left)
zero_in-rest rest left zeros =
    ap (copy_to (length rest + 1) (replicate zeros 0)) (copy_to-rest rest left (0x80 ∷ []))
    ∙ ap (λ n. copy_to n (replicate zeros 0) (marked rest ++ drop 1 left))
        (sym (length-marked rest))
    ∙ copy_to-rest (marked rest) (drop 1 left) (replicate zeros 0)
    ∙ ap (λ n. marked rest ++ replicate zeros 0 ++ drop n (drop 1 left)) (length-replicate zeros 0)

final_short :
    (message : List ℕ) (ctx : Md5Context) (hs : Holds message ctx.state ctx.buffer)
    → length hs.rest < 56
    → last_one
        (zero_in (length hs.rest) (64 - (length hs.rest + 1) - 8) ctx.buffer)
        (bits (length message))
        ctx.state
      ≡ digest_of message
unfolding body
final_short message ctx hs lt =
    let n = length hs.rest in
    let zeros = 64 - (n + 1) - 8 in
    let front = marked hs.rest ++ replicate zeros 0 in
    let left = drop zeros (drop 1 hs.left) in
    let number = bits (length message) in
    let front_length : length front ≡ 56 = omega (
      arith,
      length-append (marked hs.rest) (replicate zeros 0),
      length-marked hs.rest,
      length-replicate {A = ℕ} zeros 0,
    ) in
    let left_length : length left ≤ 8 =
      omega (arith, length-drop zeros (drop 1 hs.left), length-drop 1 hs.left, hs.room) in
    let block : copy_to 56 number (zero_in n zeros ctx.buffer) ≡ front ++ number =
      ap (λ t. copy_to 56 number (zero_in n zeros t)) hs.kept
      ∙ ap (copy_to 56 number) (zero_in-rest hs.rest hs.left zeros)
      ∙ ap (λ k. copy_to k number (front ++ left)) (sym front_length)
      ∙ copy_to-end front left number left_length in
    let zeros_eq : (119 - length message % 64) % 64 ≡ zeros =
      omega (arith, length-message message hs) in
    let end : length (front ++ number) ≡ 1 * 64 =
      omega (arith, length-append front number, front_length) in
    ap (λ b. digest (body_block b ctx.state)) block
    ∙ ap (λ s. digest (body_block (front ++ number) s)) hs.compressed
    ∙ sym (
        digest_of_lem message hs.whole (front ++ number) hs.blocks 1
          (padded_lem message hs zeros zeros_eq) hs.whole_length end)

final_long :
    (message : List ℕ) (ctx : Md5Context) (hs : Holds message ctx.state ctx.buffer)
    → 56 ≤ length hs.rest
    → last_two
        (zero_in (length hs.rest) (64 - (length hs.rest + 1)) ctx.buffer)
        (bits (length message))
        ctx.state
      ≡ digest_of message
unfolding body
final_long message ctx hs ge =
    let n = length hs.rest in
    let free = 64 - (n + 1) in
    let number = bits (length message) in
    let first = marked hs.rest ++ replicate free 0 in
    let zeros : List ℕ = replicate 56 0 in
    let first_length : length first ≡ 64 = omega (
      arith,
      length-append (marked hs.rest) (replicate free 0),
      length-marked hs.rest,
      length-replicate {A = ℕ} free 0,
      hs.rest_lt,
    ) in
    let left_length : length (drop 1 hs.left) ≤ free =
      omega (arith, length-drop 1 hs.left, hs.room) in
    let spill : zero_in n free ctx.buffer ≡ first =
      ap (zero_in n free) hs.kept
      ∙ zero_in-rest hs.rest hs.left free
      ∙ ap (λ t. first ++ t) (drop-all free (drop 1 hs.left) left_length)
      ∙ append-nil first in
    let start : copy_to 56 number (copy_to 0 zeros first) ≡ zeros ++ number =
      copy_to-end zeros (drop 56 first) number
        (omega (arith, length-drop 56 first, first_length)) in
    let zeros_eq : (119 - length message % 64) % 64 ≡ free + 56 =
      omega (arith, length-message message hs, hs.rest_lt) in
    let whole : padded message ≡ hs.whole ++ (first ++ (zeros ++ number)) =
      padded_lem message hs (free + 56) zeros_eq
      ∙ ap (λ t. hs.whole ++ (marked hs.rest ++ t ++ number)) (replicate-add free 56 0)
      ∙ ap (λ t. hs.whole ++ (t ++ number))
          (sym (append_assoc (marked hs.rest) (replicate free 0) zeros))
      ∙ ap (λ t. hs.whole ++ t) (append_assoc first zeros number) in
    let end : length (first ++ (zeros ++ number)) ≡ 2 * 64 =
      omega (arith, length-append first (zeros ++ number), first_length) in
    ap (λ b. last_two b number ctx.state) spill
    ∙ ap (λ b. digest (body_block b (body_block first ctx.state))) start
    ∙ ap (λ s. digest (body_block (zeros ++ number) (body_block first s))) hs.compressed
    ∙ ap (λ p. digest (p.1))
        (sym (body-append 1 1 first (zeros ++ number) (compress hs.blocks hs.whole) first_length))
    ∙ sym (
        digest_of_lem message hs.whole (first ++ (zeros ++ number)) hs.blocks 2 whole
          hs.whole_length end)

pub md5_final-digest_of :
    (message : List ℕ) (ctx : Md5Context) → Takes message ctx → md5_final ctx ≡ digest_of message
md5_final-digest_of message ctx takes =
    let hs = takes.holds in
    let n = length hs.rest in
    let used = used_lem message ctx takes in
    let number = bits_lem message ctx takes in
    elim (Bool-cases (ltb n 56)) [
      | inl e ↦
          md5_final-short ctx n used (ground (arith, e))
          ∙ ap (λ b. last_one (zero_in n (64 - (n + 1) - 8) ctx.buffer) b ctx.state) number
          ∙ final_short message ctx hs (ground (arith, e))
      | inr e ↦
          md5_final-long ctx n used (ground (arith, e))
          ∙ ap (λ b. last_two (zero_in n (64 - (n + 1)) ctx.buffer) b ctx.state) number
          ∙ final_long message ctx hs (ground (arith, e))
    ]
