-- ===== src/Conf/Parse/Outcome.antt =====
-- Parsing the events of a tree builds what the tree says.
use timeseries_database.Base.{ℕ, ◌≡◌, Bool, true, false, List, [], ◌∷◌}
use timeseries_database.Strings.{text}
use timeseries_database.Conf.Yaml.{Event, mapping_end_event, document_end_event, stream_end_event}
use timeseries_database.Conf.Pool.{ConfPool}
use timeseries_database.Conf.State.{World, Conf}
use timeseries_database.Conf.Parse.{conf_parse_core}
use timeseries_database.Conf.Tree.{IsScalar, Built}
use timeseries_database.Conf.Parse.Follow.{finish}
use timeseries_database.Conf.Parse.Scalars.{state}

module _ (w : World) (plenty : (n : ℕ) → w.granted n ≡ true) (base : Conf) where
  abbrev core : List Event → Conf → Built (List ConfPool)
  core events cf = finish (conf_parse_core w true events cf)

  module _ (name : List ℕ) (name_ok : IsScalar name) (pools : List ConfPool) (room : ℕ) where
    abbrev in_pool : ConfPool → ℕ → Conf
    in_pool cp requests = state base (text name ∷ []) (cp ∷ pools) room 2 false requests

    abbrev in_key : List ℕ → Bool → ConfPool → ℕ → Conf
    in_key key seq cp requests =
        state base (text key ∷ text name ∷ []) (cp ∷ pools) room 2 seq requests

abbrev tail : List Event
tail = mapping_end_event ∷ document_end_event ∷ stream_end_event ∷ []
