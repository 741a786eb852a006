-- ===== src/Conf/Samples.antt =====
-- Files with one and two pools, and a configuration that is not read yet.
use timeseries_database.Base.{ℕ, arith, refl, true, false, List, [], ◌∷◌}
use timeseries_database.Base.Int.{pos, negsuc}
use timeseries_database.Strings.{string_init, has_nul}
use timeseries_database.Conf.Yaml.{
  Token, root_node, no_root, stream_start_token, stream_end_token, block_mapping_start_token,
  key_token, value_token, scalar_token, block_end_token,
}
use timeseries_database.Conf.Pool.{ConfPool}
use timeseries_database.Conf.State.{World, Conf}
use timeseries_database.Conf.Tree.{pair, sequence, PoolTree, file_events, IsScalar, ArePools}

abbrev pub port : List ℕ
port = b'p' ∷ b'o' ∷ b'r' ∷ b't' ∷ []

abbrev pub datadir : List ℕ
datadir = b'd' ∷ b'a' ∷ b't' ∷ b'a' ∷ b'd' ∷ b'i' ∷ b'r' ∷ []

abbrev pub eighty : List ℕ
eighty = b'8' ∷ b'0' ∷ []

abbrev pub letter : List ℕ
letter = b'a' ∷ []

-- One pool with a pair and a sequence.
abbrev pub one_pool : List PoolTree
one_pool =
    (record { name = letter; items = pair port eighty ∷ sequence datadir (letter ∷ []) ∷ [] }) ∷ []

-- A second pool, with no sequence, as in test2_multi_level.yml.
abbrev pub two_pools : List PoolTree
two_pools = (record { name = port; items = pair port eighty ∷ [] }) ∷ one_pool

abbrev pub memory : ConfPool
memory = record {
  name = string_init;
  port = pos 0;
  addr = string_init;
  workers = pos 0;
  timeout = pos 0;
  backlog = pos 0;
  max_slots = negsuc 0;
  datadir = string_init;
}

abbrev pub block_tokens : List Token
block_tokens =
    stream_start_token ∷ block_mapping_start_token ∷ key_token ∷ scalar_token ∷ value_token
    ∷ scalar_token ∷ block_end_token ∷ stream_end_token ∷ []

abbrev pub world : List PoolTree → World
world ps = record {
  file = record {
    starts = true;
    documents = root_node ∷ no_root ∷ [];
    tokens = block_tokens;
    events = file_events ps;
  };
  granted = λ _. true;
  junk = λ _. memory;
}

abbrev pub fresh : Conf
fresh = record {
  arg = record { items = []; nalloc = 3 };
  pool = record { items = []; nalloc = 8 };
  depth = 0;
  seq = false;
  valid_parser = false;
  valid_event = false;
  valid_token = false;
  sound = false;
  parsed = false;
  events = [];
  requests = 0;
}

port-IsScalar : IsScalar port
unfolding has_nul
port-IsScalar = (λ e. cc, refl, omega arith)

datadir-IsScalar : IsScalar datadir
unfolding has_nul
datadir-IsScalar = (λ e. cc, refl, omega arith)

eighty-IsScalar : IsScalar eighty
unfolding has_nul
eighty-IsScalar = (λ e. cc, refl, omega arith)

letter-IsScalar : IsScalar letter
unfolding has_nul
letter-IsScalar = (λ e. cc, refl, omega arith)

pub one_pool-ArePools : ArePools one_pool
one_pool-ArePools = (
  letter-IsScalar,
  (port-IsScalar, eighty-IsScalar, (datadir-IsScalar, (letter-IsScalar, record {}), record {})),
  record {},
)
