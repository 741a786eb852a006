-- ===== src/Io/Progress.antt =====
-- `write_n` ends when each call makes progress, and its result counts what is left.
use timeseries_database.Base.{ℕ, ◌≤◌, ◌≡◌, Option, some, List, [], ◌∷◌, length}
use timeseries_database.Base.Int.{ℤ, pos}
use timeseries_database.Io.{Call, moved, failed}

-- Calls that each move a byte at least.
abbrev pub MoveOn : List Call → Type 0
MoveOn [] = Unit
MoveOn (moved k ∷ calls) = (1 ≤ k) × MoveOn calls
MoveOn (failed _ ∷ calls) = ⊥

-- A run that returns 0 and moves `n` bytes.
abbrev pub Completes : ℕ → Option (ℤ × List ℕ) → Type 0
Completes n r = (out : List ℕ) × (r ≡ some (pos 0, out)) × (length out ≡ n)
