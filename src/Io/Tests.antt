-- ===== src/Io/Tests.antt =====
-- `write_n` in two pieces.
use timeseries_database.Base.{◌≡◌, refl, some, List, [], ◌∷◌, ℕ}
use timeseries_database.Base.Int.{pos}
use timeseries_database.Io.{Call, moved, write_loop, write_n, gave, read_loop, read_n}

abbrev letters : List ℕ
letters = b'a' ∷ b'b' ∷ b'c' ∷ []

abbrev two_calls : List Call
two_calls = moved 2 ∷ moved 1 ∷ moved 1 ∷ []

-- The second piece starts at the first byte again.
write_n_repeats : write_n letters two_calls ≡ some (pos 0, b'a' ∷ b'b' ∷ b'a' ∷ [])
unfolding write_n write_loop
write_n_repeats = refl

-- The second piece overwrites the first.
read_n_overwrites :
    read_n letters (gave b'x' (b'y' ∷ []) ∷ gave b'z' [] ∷ [])
    ≡ some (pos 0, b'z' ∷ b'y' ∷ b'c' ∷ [])
unfolding read_n read_loop
read_n_overwrites = refl
