-- ===== src/Conf/Dump.antt =====
-- `conf_dump`: the lines that it gives to `log_info`.
use timeseries_database.Base.{ℕ, List, [], ◌∷◌, ◌++◌, length}
use timeseries_database.Base.Int.{ℤ}
use timeseries_database.Strings.{CString}
use timeseries_database.Conf.Pool.{ConfPool}
use timeseries_database.Conf.State.{Conf}
use timeseries_database.Conf.Post.{in_order}

-- A line by what is put into its format.
pub data Line : Type 0 where
  pools_line : (npool : ℕ) → Line
  string_line : CString → Line
  port_line timeout_line backlog_line workers_line : ℤ → Line

abbrev pub pool_lines : ConfPool → List Line
pool_lines cp =
    string_line cp.name
    ∷ string_line cp.addr
    ∷ string_line cp.datadir
    ∷ port_line cp.port
    ∷ timeout_line cp.timeout
    ∷ backlog_line cp.backlog
    ∷ workers_line cp.workers
    ∷ []

abbrev pub dump_pools : List ConfPool → List Line
dump_pools [] = []
dump_pools (cp ∷ pools) = pool_lines cp ++ dump_pools pools

abbrev pub dump_some : List ConfPool → List Line
dump_some [] = []
dump_some (cp ∷ pools) = pools_line (length (cp ∷ pools)) ∷ dump_pools (cp ∷ pools)

unfoldable pub conf_dump : Conf → List Line
conf_dump cf = dump_some (in_order cf)
