-- ===== src/Conf/Create/Tests.antt =====
-- `conf_create` at a file with one pool.
use timeseries_database.Base.Int.{pos, negsuc}
use timeseries_database.Strings.{text, string_init}
use timeseries_database.Conf.Pool.{ConfPool}
use timeseries_database.Conf.State.{Conf}
use timeseries_database.Conf.Post.{Qsort}
use timeseries_database.Conf.Samples.{letter}

abbrev no_sort : Qsort
no_sort = λ compare pools. pools

abbrev built : ConfPool
built = record {
  name = text letter;
  port = pos 80;
  addr = string_init;
  workers = negsuc 0;
  timeout = negsuc 0;
  backlog = negsuc 0;
  max_slots = negsuc 0;
  datadir = text letter;
}
