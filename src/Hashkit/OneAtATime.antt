-- ===== src/Hashkit/OneAtATime.antt =====
-- Keys that differ in one byte have different `hash_one_at_a_time` hashes.
use timeseries_database.Base.{
  ℕ, ◌^◌, ◌<◌, ◌≡◌, ◌≢◌, refl, sym, ◌∙◌, List, [], ◌∷◌, ◌++◌, arith, add32, sext32,
}
use timeseries_database.Base.Bytes.{IsBytes}
use timeseries_database.Hashkit.FnvSeparation.{sext32-lt, sext32_cancel}
use timeseries_database.Hashkit.Invertible.{
  xorshift_cancel, xorshift-lt, add_shift, add_shift3_cancel, add_shift10_cancel,
  add_shift15_cancel, add32_cancel,
}
use timeseries_database.Hashkit.Mixing.{
  one_at_a_time_round, one_at_a_time_loop, one_at_a_time_end, hash_one_at_a_time,
}

round-lt : (value c : ℕ) → one_at_a_time_round value c < 2 ^ 32
round-lt value c = xorshift-lt 6 (add_shift 10 (add32 value (sext32 c))) (omega arith)

-- A round keeps apart what is added to the value.
sum_cancel :
    (v w c d : ℕ)
    → one_at_a_time_round v c ≡ one_at_a_time_round w d
    → add32 v (sext32 c) ≡ add32 w (sext32 d)
sum_cancel v w c d e =
    add_shift10_cancel (add32 v (sext32 c)) (add32 w (sext32 d)) (omega arith) (omega arith)
      (xorshift_cancel 5 _ _ e)

loop_cancel :
    (key : List ℕ) (v w : ℕ)
    → IsBytes key
    → v < 2 ^ 32
    → w < 2 ^ 32
    → one_at_a_time_loop v key ≡ one_at_a_time_loop w key
    → v ≡ w
unfolding one_at_a_time_loop
loop_cancel [] v w bytes hv hw e = e
loop_cancel (c ∷ key) v w (hc, hk) hv hw e =
    let sums = sum_cancel v w c c (
      loop_cancel key (one_at_a_time_round v c) (one_at_a_time_round w c) hk (round-lt v c)
        (round-lt w c) e) in
    let small = sext32-lt c hc in omega (arith, sums, small)

loop-append :
    (p q : List ℕ) (value : ℕ)
    → one_at_a_time_loop value (p ++ q) ≡ one_at_a_time_loop (one_at_a_time_loop value p) q
unfolding one_at_a_time_loop
loop-append [] q value = refl
loop-append (c ∷ p) q value = loop-append p q (one_at_a_time_round value c)

loop-lt : (key : List ℕ) (value : ℕ) → value < 2 ^ 32 → one_at_a_time_loop value key < 2 ^ 32
unfolding one_at_a_time_loop
loop-lt [] value h = h
loop-lt (c ∷ key) value h = loop-lt key (one_at_a_time_round value c) (round-lt value c)

end_cancel : (v w : ℕ) → v < 2 ^ 32 → w < 2 ^ 32 → one_at_a_time_end v ≡ one_at_a_time_end w → v ≡ w
end_cancel v w hv hw e = add_shift3_cancel v w hv hw (
    xorshift_cancel 10 _ _ (
      add_shift15_cancel _ _ (xorshift-lt 11 (add_shift 3 v) (omega arith))
        (xorshift-lt 11 (add_shift 3 w) (omega arith)) e))

-- Two keys that differ in exactly one byte, with bytes after it, have different hash_one_at_a_time
-- hashes.
pub hash_one_at_a_time-ne :
    (before after : List ℕ) (a b : ℕ)
    → IsBytes after
    → a < 256
    → b < 256
    → a ≢ b
    → hash_one_at_a_time (before ++ a ∷ after) ≢ hash_one_at_a_time (before ++ b ∷ after)
unfolding hash_one_at_a_time
hash_one_at_a_time-ne before after a b bytes ha hb ne e = ne (
    sext32_cancel a b ha hb (
      add32_cancel start (sext32 a) (sext32 b) small (sext32-lt a ha) (sext32-lt b hb)
        (sum_cancel start start a b rounds)))
  where
    start : ℕ
    start = one_at_a_time_loop 0 before

    small : start < 2 ^ 32
    small = loop-lt before 0 (omega arith)

    split :
        (c : ℕ)
        → one_at_a_time_loop 0 (before ++ c ∷ after)
          ≡ one_at_a_time_loop (one_at_a_time_round start c) after
    split c = unfold one_at_a_time_loop in loop-append before (c ∷ after) 0

    rounds : one_at_a_time_round start a ≡ one_at_a_time_round start b
    rounds = loop_cancel after _ _ bytes (round-lt start a) (round-lt start b) (
        sym (split a)
        ∙ end_cancel _ _ (loop-lt (before ++ a ∷ after) 0 (omega arith))
            (loop-lt (before ++ b ∷ after) 0 (omega arith)) e
        ∙ split b)
