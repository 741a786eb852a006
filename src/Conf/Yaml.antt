-- ===== src/Conf/Yaml.antt =====
-- What libyaml gives: the kinds of tokens and events that conf.c tells apart, and a file as the
-- sequences of them that a parser started at its beginning returns.
use timeseries_database.Base.{ℕ, Bool, List}

pub data Token : Type 0 where
  no_token stream_start_token stream_end_token : Token
  version_directive_token tag_directive_token document_start_token document_end_token : Token
  block_sequence_start_token block_mapping_start_token block_end_token : Token
  flow_sequence_start_token flow_sequence_end_token : Token
  flow_mapping_start_token flow_mapping_end_token : Token
  block_entry_token flow_entry_token key_token value_token : Token
  alias_token anchor_token tag_token scalar_token unknown_token : Token

-- A scalar event holds the bytes of the scalar.
pub data Event : Type 0 where
  stream_start_event stream_end_event document_start_event document_end_event : Event
  alias_event : Event
  scalar_event : List ℕ → Event
  sequence_start_event sequence_end_event mapping_start_event mapping_end_event : Event

-- What `yaml_parser_load` gives: a failure, or a document with or without a root node.
pub data Load : Type 0 where
  load_failed root_node no_root : Load

-- `starts`: `fseek` and `yaml_parser_initialize` succeed. At the end of a list the next call of
-- the parser fails.
pub record YamlFile : Type 0 where
  pub starts : Bool
  pub documents : List Load
  pub tokens : List Token
  pub events : List Event
