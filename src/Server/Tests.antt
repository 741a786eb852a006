-- ===== src/Server/Tests.antt =====
-- The servers of three pools: when none returns, and when each does.
use timeseries_database.Base.{ℕ, ◌≡◌, refl, true, false, List, [], ◌∷◌, map}
use timeseries_database.Base.Int.{ℤ, pos}
use timeseries_database.Strings.{string_init}
use timeseries_database.Conf.Pool.{ConfPool}
use timeseries_database.Server.{pool_loop}

abbrev pool_at : ℕ → ConfPool
pool_at port = record {
  name = string_init;
  port = pos port;
  addr = string_init;
  workers = pos 1;
  timeout = pos 0;
  backlog = pos 8;
  max_slots = pos 0;
  datadir = string_init;
}

abbrev three : List ConfPool
three = pool_at 1 ∷ pool_at 2 ∷ pool_at 3 ∷ []

abbrev ports : List ConfPool × ℕ → List ℤ × ℕ
ports (servers, ends) = (map (λ cp. cp.port) servers, ends)

pool_loop-no_return :
    ports (pool_loop (λ i. true) (λ cp. false) 0 three) ≡ (pos 1 ∷ pos 2 ∷ pos 3 ∷ [], 1)
unfolding pool_loop
pool_loop-no_return = refl

pool_loop-returns :
    ports (pool_loop (λ i. true) (λ cp. true) 0 three)
    ≡ (pos 1 ∷ pos 2 ∷ pos 3 ∷ pos 3 ∷ pos 2 ∷ pos 3 ∷ pos 3 ∷ [], 8)
unfolding pool_loop
pool_loop-returns = refl
