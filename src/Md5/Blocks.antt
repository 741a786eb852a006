-- ===== src/Md5/Blocks.antt =====
-- `body` reads 64 bytes for each block and no other, so that data can be compressed in pieces.
use timeseries_database.Base.{
  ℕ, zero, suc, ◌+◌, ◌*◌, ◌<◌, ◌≤◌, ◌≡◌, refl, ap, ◌∙◌, Bool, true, List, [], ◌∷◌, ◌++◌, length,
  drop, arith, ltb, ◌&&◌,
}
use timeseries_database.Base.Pieces.{get_or-append, drop-append_le, length-zero, length-drop}
use timeseries_database.Md5.{
  Words, Steps, get, step, run_steps, round1, round2, round3, round4, body_block, body, f_function,
  g_function, h_function, i_function,
}

-- The steps read words of the block only.
abbrev Below : Steps → Type 0
Below [] = Unit
Below ((n, t, s) ∷ steps) = (n < 16) × Below steps

get-append : (xs ys : List ℕ) (n : ℕ) → 64 ≤ length xs → n < 16 → get (xs ++ ys) n ≡ get xs n
get-append xs ys n long h =
    rw
      (
        get_or-append xs ys (n * 4) 0 (omega arith),
        get_or-append xs ys (n * 4 + 1) 0 (omega arith),
        get_or-append xs ys (n * 4 + 2) 0 (omega arith),
        get_or-append xs ys (n * 4 + 3) 0 (omega arith),
      )
      refl

run_steps-append :
    (f : ℕ → ℕ → ℕ → ℕ) (xs ys : List ℕ) (steps : Steps) (w : Words)
    → 64 ≤ length xs
    → Below steps
    → run_steps f (xs ++ ys) steps w ≡ run_steps f xs steps w
unfolding run_steps
run_steps-append f xs ys [] w long h = refl
run_steps-append f xs ys ((n, t, s) ∷ steps) w long h =
    rw (get-append xs ys n long h.0)
      (run_steps-append f xs ys steps (step f (get xs n) t s w) long h.1)

all_below : Steps → Bool
all_below [] = true
all_below ((n, t, s) ∷ steps) = ltb n 16 && all_below steps

all_below-Below : (steps : Steps) → all_below steps ≡ true → Below steps
unfolding all_below
all_below-Below [] h = tt
all_below-Below ((n, t, s) ∷ steps) h = (ground arith, all_below-Below steps (ground arith))

rounds-Below : Below round1 × Below round2 × Below round3 × Below round4
unfolding all_below round1 round2 round3 round4
rounds-Below = (
  all_below-Below round1 refl,
  all_below-Below round2 refl,
  all_below-Below round3 refl,
  all_below-Below round4 refl,
)

body_block-append :
    (xs ys : List ℕ) (w : Words) → 64 ≤ length xs → body_block (xs ++ ys) w ≡ body_block xs w
unfolding body_block
body_block-append xs ys w long =
    let w1 = run_steps f_function xs round1 w in
    let w2 = run_steps g_function xs round2 w1 in
    let w3 = run_steps h_function xs round3 w2 in
    rw
      (
        run_steps-append f_function xs ys round1 w long (rounds-Below.0),
        run_steps-append g_function xs ys round2 w1 long (rounds-Below.1),
        run_steps-append h_function xs ys round3 w2 long (rounds-Below.2),
        run_steps-append i_function xs ys round4 w3 long (rounds-Below.3),
      )
      refl

-- Compressing data block after block.
pub body-append :
    (n m : ℕ) (xs ys : List ℕ) (w : Words)
    → length xs ≡ n * 64
    → body (n + m) (xs ++ ys) w ≡ body m ys ((body n xs w).1)
unfolding body
body-append zero m xs ys w h =
    let e : 0 + m ≡ m = omega arith in rw (length-zero xs h) (ap (λ k. body k ys w) e)
body-append (suc n) m xs ys w h =
    let long : 64 ≤ length xs = omega (arith, h) in
    let long : 64 ≤ length xs = omega (arith, h) in
    let e : suc n + m ≡ suc (n + m) = omega arith in
    let rest : length (drop 64 xs) ≡ n * 64 = omega (arith, h, length-drop 64 xs) in
    ap (λ k. body k (xs ++ ys) w) e
    ∙ ap (λ zs. body (n + m) zs (body_block (xs ++ ys) w)) (drop-append_le 64 xs ys long)
    ∙ ap (λ v. body (n + m) (drop 64 xs ++ ys) v) (body_block-append xs ys w long)
    ∙ body-append n m (drop 64 xs) ys (body_block xs w) rest
