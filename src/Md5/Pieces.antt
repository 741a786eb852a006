-- ===== src/Md5/Pieces.antt =====
-- A message that md5_update takes in pieces: what a context keeps of it.
use timeseries_database.Base.{
  ℕ, ◌+◌, ◌*◌, ◌/◌, ◌%◌, ◌^◌, ◌<◌, ◌≤◌, ◌≡◌, refl, sym, subst, ap, ◌∙◌, true, false, List, [], ◌++◌,
  length, take, drop, arith, leb, Bool-cases, inl, inr, append_assoc, length-append,
}
use timeseries_database.Base.Pieces.{append-take-drop, length-take, length-drop}
use timeseries_database.Md5.{Md5Context, Words, words, copy_to, take_blocks, body, md5_init}
use timeseries_database.Md5.Count.{total}
use timeseries_database.Md5.Blocks.{body-append}

abbrev pub initial : Words
initial = words 0x67452301 0xefcdab89 0x98badcfe 0x10325476

-- The state after the blocks of a list that is a number of blocks long.
abbrev pub compress : ℕ → List ℕ → Words
compress blocks whole = (body blocks whole initial).1

-- The state and the buffer after a message: its whole blocks are compressed, and the rest of it is
-- at the start of the buffer.
pub record Holds (message : List ℕ) (state : Words) (buffer : List ℕ) : Type 0 where
  pub whole : List ℕ
  pub rest : List ℕ
  pub left : List ℕ
  pub blocks : ℕ
  pub splits : message ≡ whole ++ rest
  pub whole_length : length whole ≡ blocks * 64
  pub compressed : state ≡ compress blocks whole
  pub kept : buffer ≡ rest ++ left
  pub rest_lt : length rest < 64
  pub room : length rest + length left ≡ 64

pub compress-append :
    (n m : ℕ) (xs ys : List ℕ)
    → length xs ≡ n * 64
    → compress (n + m) (xs ++ ys) ≡ (body m ys (compress n xs)).1
compress-append n m xs ys h = ap (λ p. p.1) (body-append n m xs ys initial h)

body-whole :
    (n : ℕ) (xs ys : List ℕ) (w : Words)
    → length xs ≡ n * 64
    → body n (xs ++ ys) w ≡ (ys, (body n xs w).1)
unfolding body
body-whole n xs ys w h =
    let e : n ≡ n + 0 = omega arith in ap (λ k. body k (xs ++ ys) w) e ∙ body-append n 0 xs ys w h

copy_to-start : (xs buffer : List ℕ) → copy_to 0 xs buffer ≡ xs ++ drop (length xs) buffer
copy_to-start xs buffer =
    let e : 0 + length xs ≡ length xs = omega arith in ap (λ k. xs ++ drop k buffer) e

-- The rest of a message is copied to the start of the buffer.
Holds-start :
    (whole rest : List ℕ) (blocks : ℕ) (buffer : List ℕ)
    → length whole ≡ blocks * 64
    → length rest < 64
    → length buffer ≡ 64
    → Holds (whole ++ rest) (compress blocks whole) (copy_to 0 rest buffer)
Holds-start whole rest blocks buffer len short size = record {
  whole = whole;
  rest = rest;
  left = drop (length rest) buffer;
  blocks = blocks;
  splits = refl;
  whole_length = len;
  compressed = refl;
  kept = copy_to-start rest buffer;
  rest_lt = short;
  room = omega (arith, length-drop (length rest) buffer, short, size);
}

take_blocks-long :
    (ptr : List ℕ) (ctx : Md5Context)
    → 64 ≤ length ptr
    → let p = body (length ptr / 64) ptr ctx.state in
      take_blocks ptr ctx ≡ record ctx { state = p.1; buffer = copy_to 0 (p.0) ctx.buffer }
unfolding take_blocks
take_blocks-long ptr ctx h = let e : leb 64 (length ptr) ≡ true = ground arith in rw e refl

take_blocks-short :
    (ptr : List ℕ) (ctx : Md5Context)
    → length ptr < 64
    → take_blocks ptr ctx ≡ record ctx { buffer = copy_to 0 ptr ctx.buffer }
unfolding take_blocks
take_blocks-short ptr ctx h = let e : leb 64 (length ptr) ≡ false = ground arith in rw e refl

pub take_blocks-Holds :
    (ptr whole : List ℕ) (blocks : ℕ) (ctx : Md5Context)
    → length whole ≡ blocks * 64
    → ctx.state ≡ compress blocks whole
    → length ctx.buffer ≡ 64
    → let after = take_blocks ptr ctx in Holds (whole ++ ptr) after.state after.buffer
take_blocks-Holds ptr whole blocks ctx len state buffer =
    let m = length ptr / 64 in
    let front = take (m * 64) ptr in
    let back = drop (m * 64) ptr in
    let split = append-take-drop (m * 64) ptr in
    let front_length : length front ≡ m * 64 = length-take (m * 64) ptr (omega arith) in
    let short : length back < 64 = omega (arith, length-drop (m * 64) ptr) in
    let total : length (whole ++ front) ≡ (blocks + m) * 64 =
      omega (arith, length-append whole front, front_length, len) in
    elim (Bool-cases (leb 64 (length ptr))) [
      | inl e ↦
          let long : 64 ≤ length ptr = ground (arith, e) in
          let b : body m ptr ctx.state ≡ (back, compress (blocks + m) (whole ++ front)) =
            ap (λ xs. body m xs ctx.state) (sym split)
            ∙ body-whole m front back ctx.state front_length
            ∙ ap (λ s. (back, (body m front s).1)) state
            ∙ ap (λ s. (back, s)) (sym (compress-append blocks m whole front len)) in
          let msg : (whole ++ front) ++ back ≡ whole ++ ptr =
            append_assoc whole front back ∙ ap (λ t. whole ++ t) split in
          subst (λ c. Holds (whole ++ ptr) c.state c.buffer)
            (sym (
              take_blocks-long ptr ctx long
              ∙ ap (λ p. record ctx { state = p.1; buffer = copy_to 0 (p.0) ctx.buffer }) b))
            (subst
              (λ t. Holds t (compress (blocks + m) (whole ++ front)) (copy_to 0 back ctx.buffer))
              msg (Holds-start (whole ++ front) back (blocks + m) ctx.buffer total short buffer))
      | inr e ↦
          let lt : length ptr < 64 = ground (arith, e) in
          subst (λ c. Holds (whole ++ ptr) c.state c.buffer) (sym (take_blocks-short ptr ctx lt))
            (subst (λ s. Holds (whole ++ ptr) s (copy_to 0 ptr ctx.buffer)) (sym state)
              (Holds-start whole ptr blocks ctx.buffer len lt buffer))
    ]

-- A context that has taken a message, and counts its bytes.
pub record Takes (message : List ℕ) (ctx : Md5Context) : Type 0 where
  pub holds : Holds message ctx.state ctx.buffer
  pub counted : total ctx ≡ length message % 2 ^ 61
  pub lo_lt : ctx.lo < 2 ^ 29
  pub hi_lt : ctx.hi < 2 ^ 32

pub md5_init-Takes : (ctx : Md5Context) → length ctx.buffer ≡ 64 → Takes [] (md5_init ctx)
unfolding md5_init body
md5_init-Takes ctx size = record {
  holds = record {
    whole = [];
    rest = [];
    left = ctx.buffer;
    blocks = 0;
    splits = refl;
    whole_length = refl;
    compressed = refl;
    kept = refl;
    rest_lt = omega arith;
    room = omega (arith, size);
  };
  counted = refl;
  lo_lt = omega arith;
  hi_lt = omega arith;
}
