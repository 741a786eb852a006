-- ===== src/Io.antt =====
-- io.c: `write_n` and `read_n`, at what the calls of `write` and `read` return in turn; `none` is
-- still waiting for the next.
pub mod Progress
mod Tests
use timeseries_database.Base.{
  ℕ, zero, suc, ◌+◌, ◌-◌, min, Bool, true, false, Option, none, some, List, [], ◌∷◌, ◌++◌, ◌==◌,
  length, take, drop, if◌then◌else◌,
}
use timeseries_database.Base.Int.{ℤ, pos, negsuc}

-- What a call of `write` does: it moves up to `k` bytes, or fails, with `errno` at `EINTR` or not.
pub data Call : Type 0 where
  moved : ℕ → Call
  failed : (interrupted : Bool) → Call

-- One more piece in front of those that a run moves.
abbrev pub after_piece : List ℕ → Option (ℤ × List ℕ) → Option (ℤ × List ℕ)
after_piece piece none = none
after_piece piece (some (result, pieces)) = some (result, piece ++ pieces)

-- The loop with `left` bytes to go. Each call starts at `p`, which does not move. The result comes
-- with the bytes that reach the file.
unfoldable pub write_loop : (p : List ℕ) (left : ℕ) → List Call → Option (ℤ × List ℕ)
write_loop p left [] = if left == 0 then some (pos 0, []) else none
write_loop p left (moved k ∷ calls) =
    let rest = write_loop p (left - min k left) calls in
    if left == 0 then some (pos 0, []) else after_piece (take (min k left) p) rest
write_loop p left (failed interrupted ∷ calls) =
    if left == 0 then some (pos 0, []) else some (if interrupted then pos left else negsuc 0, [])

unfoldable pub write_n : (p : List ℕ) → List Call → Option (ℤ × List ℕ)
write_n p calls = write_loop p (length p) calls

-- What a call of `read` does: it gives bytes, or none at the end of the file or as an error, after
-- which `errno`, which the end of the file does not set, is `EINTR` or not.
pub data Read : Type 0 where
  gave : (first : ℕ) (others : List ℕ) → Read
  gave_none : (interrupted : Bool) → Read

-- The loop with `left` bytes to go and what the buffer at `p` holds: each call writes at `p`.
unfoldable pub read_loop : (left : ℕ) (p : List ℕ) → List Read → Option (ℤ × List ℕ)
read_loop left p [] = if left == 0 then some (pos 0, p) else none
read_loop left p (gave first others ∷ calls) =
    let piece = take left (first ∷ others) in
    let rest = read_loop (left - length piece) (piece ++ drop (length piece) p) calls in
    if left == 0 then some (pos 0, p) else rest
read_loop left p (gave_none interrupted ∷ calls) =
    if left == 0 then some (pos 0, p) else some (if interrupted then pos left else negsuc 0, p)

unfoldable pub read_n : (p : List ℕ) → List Read → Option (ℤ × List ℕ)
read_n p calls = read_loop (length p) p calls
