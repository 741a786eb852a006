-- ===== src/Conf/Structure.antt =====
-- `conf_validate_structure`: the nesting that the parser of conf.c can read. An access of `count`
-- outside its three elements is `none`.
pub mod OneSequence
use timeseries_database.Base.{
  ℕ, suc, ◌+◌, ◌-◌, Bool, true, false, ◌&&◌, not, Option, none, some, List, [], ◌∷◌, ◌==◌, leb,
  if◌then◌else◌, get_elem?, set,
}
use timeseries_database.Strings.{Status, done, error, no_memory}
use timeseries_database.Conf.Yaml.{
  YamlFile, Event, stream_start_event, stream_end_event, document_start_event, document_end_event,
  alias_event, scalar_event, sequence_start_event, sequence_end_event, mapping_start_event,
  mapping_end_event,
}
use timeseries_database.Conf.State.{World, Conf, conf_yaml_init, conf_yaml_deinit, on_done}

abbrev pub conf_max_depth : ℕ
conf_max_depth = 2

-- The local variables; `ended` is `done`, `failed` is `error`.
pub record Scan : Type 0 where
  pub depth : ℕ
  pub count : List ℕ
  pub seq : Bool
  pub ended : Bool
  pub failed : Bool

-- `count[depth] = n`
abbrev pub put_count : Scan → ℕ → Option Scan
put_count s n = if leb 3 s.depth then none else some (record s { count = set s.count s.depth n })

abbrev pub with_count : Scan → (ℕ → Option Scan) → Option Scan
with_count s k = elim (get_elem? s.count s.depth) [ none ↦ none | some n ↦ k n ]

unfoldable pub mapping_start : Scan → Option Scan
mapping_start s =
    if s.depth == 1
    then with_count s (λ n. some (record s { failed = not (n == 1); depth = s.depth + 1 }))
    else some (record s { failed = leb conf_max_depth s.depth; depth = s.depth + 1 })

-- `depth--` at 0 makes the index of the write negative.
unfoldable pub mapping_end : Scan → Option Scan
mapping_end s =
    if s.depth == 0
    then none
    else (if s.depth == conf_max_depth
        then put_count (record s { failed = not s.seq; seq = false; depth = s.depth - 1 }) 0
        else put_count (record s { depth = s.depth - 1 }) 0)

unfoldable pub sequence_start : Scan → Option Scan
sequence_start s =
    if s.seq
    then some (record s { failed = true; seq = true })
    else (if s.depth == conf_max_depth
        then with_count s (λ n. some (record s { failed = not (n == 1); seq = true }))
        else some (record s { failed = true; seq = true }))

unfoldable pub sequence_end : Scan → Option Scan
sequence_end s = put_count s 0

unfoldable pub scalar : Scan → Option Scan
scalar s = with_count s (λ n.
    if s.depth == 0
    then put_count (record s { failed = true }) (n + 1)
    else (if (s.depth == 1) && not (n == 0)
        then put_count (record s { failed = true }) (n + 1)
        else (if (s.depth == conf_max_depth) && (n == 2)
            then put_count s 1
            else put_count s (n + 1))))

unfoldable pub structure_case : Event → Scan → Option Scan
structure_case stream_end_event s = some (record s { ended = true })
structure_case mapping_start_event s = mapping_start s
structure_case mapping_end_event s = mapping_end s
structure_case sequence_start_event s = sequence_start s
structure_case sequence_end_event s = sequence_end s
structure_case (scalar_event _) s = scalar s
structure_case _ s = some s

-- The loop: without an event left the parser fails, and is left as it is.
unfoldable pub structure_loop : List Event → Scan → Conf → Option (Status × Conf)
structure_loop [] s cf = some (error, cf)
structure_loop (event ∷ events) s cf = elim (structure_case event s) [
  | none ↦ none
  | some s' ↦
      let cf' = record cf { valid_event = false } in
      let rest = structure_loop events s' cf' in
      if s'.failed
      then some (error, conf_yaml_deinit cf')
      else (if s'.ended then some (done, conf_yaml_deinit cf') else rest)
]

abbrev pub scan_start : Scan
scan_start = record {
  depth = 0;
  count = 0 ∷ 0 ∷ 0 ∷ [];
  seq = false;
  ended = false;
  failed = false;
}

unfoldable pub conf_validate_structure : World → Conf → Option (Status × Conf)
conf_validate_structure w cf =
    on_done (some (conf_yaml_init w cf)) (structure_loop w.file.events scan_start)
