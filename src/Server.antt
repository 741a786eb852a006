-- ===== src/Server.antt =====
-- db.c: `main`, which starts a server for each pool of the configuration. What `fork` answers is an
-- argument, and so is which servers return.
mod Tests
use timeseries_database.Base.{
  ℕ, zero, suc, ◌+◌, Bool, false, Option, none, some, List, [], ◌∷◌, ◌++◌, if◌then◌else◌,
}
use timeseries_database.Strings.{text}
use timeseries_database.Conf.Pool.{ConfPool}
use timeseries_database.Conf.State.{World, Conf}
use timeseries_database.Conf.Post.{Qsort, in_order}
use timeseries_database.Conf.Create.{conf_create, conf_destroy}
use timeseries_database.Conf.Dump.{Line, conf_dump}

-- The loop from pool `i` on: the pools whose server is started, by the process itself and by all
-- that it forks, and how many processes come to the end of the loop. A child goes on with the loop
-- when its server returns.
unfoldable pub pool_loop :
    (forked : ℕ → Bool) (returns : ConfPool → Bool) (i : ℕ) → List ConfPool → List ConfPool × ℕ
pool_loop forked returns i [] = ([], 1)
pool_loop forked returns i (cp ∷ pools) =
    let (servers, ends) = pool_loop forked returns (i + 1) pools in
    if forked i
    then (if returns cp then (cp ∷ servers ++ servers, ends + ends) else (cp ∷ servers, ends))
    else (servers, ends)

-- What `main` does: the servers, the number of processes at the end, and what each of them logs.
-- The inner `none` is a file that `conf_create` does not accept.
unfoldable pub main :
    World
    → Qsort
    → (readable : Bool) (forked : ℕ → Bool) (returns : ConfPool → Bool)
    → Option (Option (List ConfPool × ℕ × List Line))
main w qsort readable forked returns = elim (conf_create w qsort readable false) [
  | none ↦ none
  | some none ↦ some none
  | some (some cf) ↦
      let (servers, ends) = pool_loop forked returns 0 (in_order cf) in
      elim (conf_destroy cf) [ none ↦ none | some _ ↦ some (some (servers, ends, conf_dump cf)) ]
]
