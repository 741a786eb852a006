-- ===== src/Base/Bytes.antt =====
-- Byte strings, and the check of every value below a bound by evaluation.
use timeseries_database.Base.{ℕ, zero, suc, ◌<◌, ◌≡◌, Bool, true, ◌&&◌, List, [], ◌∷◌, arith}

abbrev pub IsBytes : List ℕ → Type 0
IsBytes [] = Unit
IsBytes (c ∷ key) = (c < 256) × IsBytes key

-- The indices from `bound - 1` down that pass a test.
module _ (test : ℕ → Bool) where
  unfoldable pub passes : ℕ → Bool
  passes zero = true
  passes (suc bound) = test bound && passes bound

  pub passes-lt : (bound i : ℕ) → passes bound ≡ true → i < bound → test i ≡ true
  unfolding passes
  passes-lt zero i all lt = absurd (omega arith)
  passes-lt (suc bound) i all lt = ground (arith, passes-lt bound i)
