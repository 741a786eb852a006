-- ===== src/Conf/Tree.antt =====
-- The files that the comment in `conf_validate_structure` describes, as trees, and what parsing
-- one should give.
use timeseries_database.Base.{
  ℕ, true, false, Option, none, some, List, [], ◌∷◌, ◌≡◌, ◌≢◌, ◌<◌, ◌^◌, length,
}
use timeseries_database.Strings.{Status, done, error, no_memory, text, has_nul}
use timeseries_database.Conf.Yaml.{
  Event, stream_start_event, stream_end_event, document_start_event, document_end_event,
  scalar_event, sequence_start_event, sequence_end_event, mapping_start_event, mapping_end_event,
}
use timeseries_database.Conf.Pool.{ConfPool, conf_pool_init}
use timeseries_database.Conf.Command.{conf_commands, run_command}

-- `key: value`, or `key:` with a sequence below it.
pub data Item : Type 0 where
  pair : (key value : List ℕ) → Item
  sequence : (key : List ℕ) (elems : List (List ℕ)) → Item

pub record PoolTree : Type 0 where
  pub name : List ℕ
  pub items : List Item

-- The events of a part of a tree, in front of those that follow.
unfoldable pub elem_events : List (List ℕ) → List Event → List Event
elem_events [] rest = rest
elem_events (e ∷ es) rest = scalar_event e ∷ elem_events es rest

unfoldable pub item_events : List Item → List Event → List Event
item_events [] rest = rest
item_events (pair key value ∷ items) rest =
    scalar_event key ∷ scalar_event value ∷ item_events items rest
item_events (sequence key elems ∷ items) rest =
    scalar_event key
    ∷ sequence_start_event
    ∷ elem_events elems (sequence_end_event ∷ item_events items rest)

unfoldable pub pool_events : List PoolTree → List Event → List Event
pool_events [] rest = rest
pool_events (p ∷ ps) rest =
    scalar_event p.name
    ∷ mapping_start_event
    ∷ item_events p.items (mapping_end_event ∷ pool_events ps rest)

unfoldable pub file_events : List PoolTree → List Event
file_events ps =
    stream_start_event
    ∷ document_start_event
    ∷ mapping_start_event
    ∷ pool_events ps (mapping_end_event ∷ document_end_event ∷ stream_end_event ∷ [])

-- A scalar that a string can hold, and whose length a `uint32_t` can.
abbrev pub IsScalar : List ℕ → Type 0
IsScalar s = (s ≢ []) × (has_nul s ≡ false) × (length s < 2 ^ 32)

abbrev pub AreScalars : List (List ℕ) → Type 0
AreScalars [] = Unit
AreScalars (s ∷ ss) = IsScalar s × AreScalars ss

abbrev pub AreItems : List Item → Type 0
AreItems [] = Unit
AreItems (pair key value ∷ items) = IsScalar key × IsScalar value × AreItems items
AreItems (sequence key elems ∷ items) = IsScalar key × AreScalars elems × AreItems items

abbrev pub ArePools : List PoolTree → Type 0
ArePools [] = Unit
ArePools (p ∷ ps) = IsScalar p.name × AreItems p.items × ArePools ps

-- The settings of a pool, one for each value and one for each element of a sequence.
unfoldable pub elem_settings :
    List ℕ → List (List ℕ) → List (List ℕ × List ℕ) → List (List ℕ × List ℕ)
elem_settings key [] rest = rest
elem_settings key (e ∷ es) rest = (key, e) ∷ elem_settings key es rest

unfoldable pub settings : List Item → List (List ℕ × List ℕ)
settings [] = []
settings (pair key value ∷ items) = (key, value) ∷ settings items
settings (sequence key elems ∷ items) = elem_settings key elems (settings items)

-- What a configuration is built to: the first failure ends it.
abbrev pub Built : Type 0 → Type 0
Built A = Option (Status × A)

unfoldable pub apply_settings : List (List ℕ × List ℕ) → ConfPool → Built ConfPool
apply_settings [] cp = some (done, cp)
apply_settings ((key, value) ∷ rest) cp =
    elim (run_command true conf_commands (text key) (text value) cp) [
      | none ↦ none
      | some (done, cp') ↦ apply_settings rest cp'
      | some (error, cp') ↦ some (error, cp')
      | some (no_memory, cp') ↦ some (no_memory, cp')
    ]

-- `pools` are those built so far, the newest first; `junk` is what the memory of the
-- `n`th pool holds.
unfoldable pub build_pools : (ℕ → ConfPool) → List PoolTree → List ConfPool → Built (List ConfPool)
build_pools junk [] pools = some (done, pools)
build_pools junk (p ∷ ps) pools = elim (conf_pool_init true (junk (length pools)) (text p.name)) [
  | none ↦ none
  | some (status, cp) ↦ elim (apply_settings (settings p.items) cp) [
    | none ↦ none
    | some (done, cp') ↦ build_pools junk ps (cp' ∷ pools)
    | some (error, cp') ↦ some (error, cp' ∷ pools)
    | some (no_memory, cp') ↦ some (no_memory, cp' ∷ pools)
  ]
]
