-- ===== src/Conf/Parse.antt =====
-- Parsing: `conf_begin_parse`, `conf_parse_core`, `conf_end_parse` and `conf_parse`.
pub mod Scalars
pub mod Leaf
pub mod Steps
pub mod Follow
pub mod Outcome
use timeseries_database.Base.{
  ℕ, zero, suc, ◌+◌, ◌-◌, Bool, true, false, ◌||◌, not, Option, none, some, List, [], ◌∷◌, ◌==◌,
  if◌then◌else◌, length, u32, sub32,
}
use timeseries_database.Strings.{CString, Status, done, error, no_memory}
use timeseries_database.Conf.Yaml.{
  YamlFile, Event, stream_start_event, stream_end_event, document_start_event, document_end_event,
  alias_event, scalar_event, sequence_start_event, sequence_end_event, mapping_start_event,
  mapping_end_event,
}
use timeseries_database.Conf.Pool.{ConfPool, conf_pool_init}
use timeseries_database.Conf.Command.{conf_commands, run_command}
use timeseries_database.Conf.State.{
  Elements, World, Conf, push, conf_event_done, conf_yaml_init, conf_yaml_deinit, conf_push_scalar,
  conf_pop_scalar, on_done,
}

-- `data` is null, or the newest pool of the array.
abbrev conf_root_depth : ℕ
conf_root_depth = 1

-- The name of a pool, or a key and its value, whichever the arguments hold.
unfoldable pub handle : World → (args : List CString) → ℕ → ConfPool → Option (Status × ConfPool)
handle w [] asked cp = none
handle w (value ∷ []) asked cp = conf_pool_init (w.granted asked) cp value
handle w (value ∷ key ∷ _) asked cp = run_command (w.granted asked) conf_commands key value cp

-- `has_data` is whether `data` is set; it is then the newest pool.
unfoldable pub conf_handler : World → (has_data : Bool) → Conf → Option (Status × Conf)
conf_handler w false cf = none
conf_handler w true cf = elim cf.pool.items [
  | [] ↦ none
  | cp ∷ pools ↦ elim (handle w cf.arg.items cf.requests cp) [
    | none ↦ none
    | some (status, cp') ↦ some (
      status,
      record cf { pool = record cf.pool { items = cp' ∷ pools }; requests = cf.requests + 1 },
    )
  ]
]

-- What `conf_parse_core` does after its `switch`: it returns, or it goes on, after the handler if
-- there is a leaf or a new pool.
pub data Next : Type 0 where
  stop : Status → Next
  go_on : (leaf new_pool has_data : Bool) → Next

-- The case of a scalar.
unfoldable pub scalar_case : World → Bool → List ℕ → Conf → Option (Next × Conf)
scalar_case w has_data scalar cf = elim (conf_push_scalar w scalar cf) [
  | none ↦ none
  | some (error, cf') ↦ some (stop error, cf')
  | some (no_memory, cf') ↦ some (stop no_memory, cf')
  | some (done, cf') ↦
      if cf'.seq
      then some (go_on true false has_data, cf')
      else (if cf'.depth == conf_root_depth
          then elim (push (w.granted cf'.requests) (w.junk (length cf'.pool.items)) cf'.pool) [
            | none ↦ none
            | some none ↦ some (stop no_memory, record cf' { requests = cf'.requests + 1 })
            | some (some pool) ↦
                some
                  (go_on false true true, record cf' { pool = pool; requests = cf'.requests + 1 })
          ]
          else (if length cf'.arg.items == u32 (cf'.depth + 1)
              then some (go_on true false has_data, cf')
              else some (go_on false false has_data, cf')))
]

-- The `switch` of `conf_parse_core`.
unfoldable pub core_switch : World → Bool → Event → Conf → Option (Next × Conf)
core_switch w has_data mapping_end_event cf =
    let left = record cf { depth = sub32 cf.depth 1 } in
    if left.depth == 1
    then elim (conf_pop_scalar left) [
      | none ↦ none
      | some cf' ↦ some (go_on false false has_data, cf')
    ]
    else (if left.depth == 0
        then some (stop done, left)
        else some (go_on false false has_data, left))
core_switch w has_data mapping_start_event cf =
    some (go_on false false has_data, record cf { depth = u32 (cf.depth + 1) })
core_switch w has_data sequence_start_event cf =
    some (go_on false false has_data, record cf { seq = true })
core_switch w has_data sequence_end_event cf = elim (conf_pop_scalar cf) [
  | none ↦ none
  | some cf' ↦ some (go_on false false has_data, record cf' { seq = false })
]
core_switch w has_data (scalar_event scalar) cf = scalar_case w has_data scalar cf
core_switch w has_data _ cf = some (go_on false false has_data, cf)

-- After a leaf its value is popped, and its key unless it stands in a sequence.
unfoldable pub pop_leaf : Bool → Conf → Option Conf
pop_leaf false cf = some cf
pop_leaf true cf = elim (conf_pop_scalar cf) [
  | none ↦ none
  | some cf' ↦ if cf'.seq then some cf' else conf_pop_scalar cf'
]

-- The rest of a call of `conf_parse_core`, up to the recursive call.
unfoldable pub core_rest : World → Next × Conf → Option (Next × Conf)
core_rest w (stop status, cf) = some (stop status, cf)
core_rest w (go_on leaf new_pool has_data, cf) =
    if leaf || new_pool
    then elim (conf_handler w has_data cf) [
      | none ↦ none
      | some (status, cf') ↦ elim (pop_leaf leaf cf') [
        | none ↦ none
        | some cf'' ↦ elim status [
          | done ↦ some (go_on leaf new_pool has_data, cf'')
          | error ↦ some (stop error, cf'')
          | no_memory ↦ some (stop no_memory, cf'')
        ]
      ]
    ]
    else some (go_on leaf new_pool has_data, cf)

-- One call of `conf_parse_core` on the event that the parser gives, up to the recursive call.
unfoldable pub core_call : World → Bool → Event → Conf → Option (Next × Conf)
core_call w has_data event cf =
    elim (core_switch w has_data event (record cf { valid_event = true })) [
      | none ↦ none
      | some (next, cf') ↦ core_rest w (next, conf_event_done cf')
    ]

-- Without an event left the parser fails.
unfoldable pub conf_parse_core : World → Bool → List Event → Conf → Option (Status × Conf)
conf_parse_core w has_data [] cf = some (error, record cf { events = [] })
conf_parse_core w has_data (event ∷ events) cf = elim (core_call w has_data event cf) [
  | none ↦ none
  | some (stop status, cf') ↦ some (status, record cf' { events = events })
  | some (go_on _ _ has_data', cf') ↦ conf_parse_core w has_data' events cf'
]

unfoldable pub begin_loop : List Event → Conf → Status × Conf
begin_loop [] cf = (error, record cf { events = [] })
begin_loop (mapping_start_event ∷ events) cf =
    (done, record cf { depth = u32 (cf.depth + 1); events = events; valid_event = false })
begin_loop (event ∷ events) cf = begin_loop events (record cf { valid_event = false })

unfoldable pub conf_begin_parse : World → Conf → Option (Status × Conf)
conf_begin_parse w cf = on_done (some (conf_yaml_init w cf)) (λ cf. some (begin_loop cf.events cf))

unfoldable pub end_loop : List Event → Conf → Status × Conf
end_loop [] cf = (error, record cf { events = [] })
end_loop (stream_end_event ∷ events) cf =
    (done, conf_yaml_deinit (record cf { events = events; valid_event = false }))
end_loop (event ∷ events) cf = end_loop events (record cf { valid_event = false })

unfoldable pub conf_end_parse : Conf → Option (Status × Conf)
conf_end_parse cf = some (end_loop cf.events cf)

unfoldable pub conf_parse : World → Conf → Option (Status × Conf)
conf_parse w cf = on_done (conf_begin_parse w cf) (λ cf.
    on_done (conf_parse_core w false cf.events cf)
      (λ cf. on_done (conf_end_parse cf) (λ cf. some (done, record cf { parsed = true }))))
