-- ===== src/Conf/Create/Accepted.antt =====
-- A file that describes pools, through `conf_create` from end to end.
use timeseries_database.Base.{List, map}
use mathlib.Core.List.{reverse}
use timeseries_database.Conf.Pool.{ConfPool}
use timeseries_database.Conf.State.{Conf}
use timeseries_database.Conf.Post.{
  Qsort, conf_validate_pool, conf_pool_name_cmp, conf_pool_addr_cmp,
}

-- The pools in the array, with their defaults, sorted by their addresses and then by their names.
abbrev pub sort_listens : Qsort → List ConfPool → List ConfPool
sort_listens qsort pools = qsort conf_pool_addr_cmp (map conf_validate_pool (reverse pools))

abbrev pub sort_names : Qsort → List ConfPool → List ConfPool
sort_names qsort pools = qsort conf_pool_name_cmp (sort_listens qsort pools)
