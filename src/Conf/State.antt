-- ===== src/Conf/State.antt =====
-- `struct conf` while a file is read, and the operations on its arrays and on libyaml's parser.
use timeseries_database.Base.{
  ℕ, ◌+◌, ◌*◌, ◌^◌, ltb, u32, take, Bool, true, false, Option, none, some, List, [], ◌∷◌, ◌==◌,
  if◌then◌else◌, length, ◌≡◌, refl,
}
use timeseries_database.Strings.{
  CString, Status, done, error, no_memory, string_init, string_deinit, string_copy,
}
use timeseries_database.Conf.Yaml.{YamlFile, Event}
use timeseries_database.Conf.Pool.{ConfPool}

-- An array of array.c by its elements, the newest first.
pub record Elements (A : Type 0) : Type 0 where
  pub items : List A
  pub nalloc : ℕ

-- The world that a run meets: the file, whether the `n`th request for memory is granted, and what
-- the memory of the `n`th new pool holds.
pub record World : Type 0 where
  pub file : YamlFile
  pub granted : ℕ → Bool
  pub junk : ℕ → ConfPool

-- `requests` numbers the requests for memory (a number may be left out); `events` are those that
-- the parser has yet to give.
pub record Conf : Type 0 where
  pub arg : Elements CString
  pub pool : Elements ConfPool
  pub depth : ℕ
  pub seq : Bool
  pub valid_parser : Bool
  pub valid_event : Bool
  pub valid_token : Bool
  pub sound : Bool
  pub parsed : Bool
  pub events : List Event
  pub requests : ℕ

-- `array_push`, with the element that the caller then writes: the inner `none` when it cannot grow.
-- The outer one is a count that wraps around, or an array that has room for no element, which does
-- not grow by doubling.
abbrev pub push : {A : Type 0} → Bool → A → Elements A → Option (Option (Elements A))
push granted x es =
    let nelem = length es.items in
    if ltb (nelem + 1) (2 ^ 32)
    then (if nelem == es.nalloc
        then (if nelem == 0
            then none
            else (if granted
                then some (some (record { items = x ∷ es.items; nalloc = u32 (es.nalloc * 2) }))
                else some none))
        else some (some (record es { items = x ∷ es.items })))
    else none

unfoldable pub conf_event_done : Conf → Conf
conf_event_done cf = record cf { valid_event = false }

-- Starts the parser at the beginning of the file.
unfoldable pub conf_yaml_init : World → Conf → Status × Conf
conf_yaml_init w cf =
    if w.file.starts
    then (done, record cf { valid_parser = true; events = w.file.events })
    else (error, cf)

unfoldable pub conf_yaml_deinit : Conf → Conf
conf_yaml_deinit cf = record cf { valid_parser = false }

unfoldable pub conf_push_scalar : World → List ℕ → Conf → Option (Status × Conf)
conf_push_scalar w scalar cf =
    let scalar_len = u32 (length scalar) in
    if scalar_len == 0
    then some (error, cf)
    else elim (push (w.granted cf.requests) string_init cf.arg) [
      | none ↦ none
      | some none ↦ some (no_memory, record cf { requests = cf.requests + 1 })
      | some (some arg) ↦
          let asked = cf.requests + 1 in
          elim (string_copy (w.granted asked) string_init (take scalar_len scalar)) [
            | none ↦ none
            | some (done, value) ↦ some (
              done,
              record cf { arg = record arg { items = value ∷ cf.arg.items }; requests = asked + 1 },
            )
            | some (error, value) ↦ some (
              error,
              record cf { arg = record arg { items = cf.arg.items }; requests = asked + 1 },
            )
            | some (no_memory, value) ↦ some (
              no_memory,
              record cf { arg = record arg { items = cf.arg.items }; requests = asked + 1 },
            )
          ]
    ]

unfoldable pub pop_item : List CString → Option (List CString)
pop_item [] = none
pop_item (value ∷ items) = elim (string_deinit value) [ none ↦ none | some _ ↦ some items ]

unfoldable pub conf_pop_scalar : Conf → Option Conf
conf_pop_scalar cf = elim (pop_item cf.arg.items) [
  | none ↦ none
  | some items ↦ some (record cf { arg = record cf.arg { items = items } })
]

-- `if (status != 0) { return status; }`, and the rest.
abbrev pub on_done :
    Option (Status × Conf) → (Conf → Option (Status × Conf)) → Option (Status × Conf)
on_done none k = none
on_done (some (done, cf)) k = k cf
on_done (some (error, cf)) k = some (error, cf)
on_done (some (no_memory, cf)) k = some (no_memory, cf)

abbrev pub on_started : Status × Conf → (Conf → Status × Conf) → Status × Conf
on_started (done, cf) k = k cf
on_started (error, cf) k = (error, cf)
on_started (no_memory, cf) k = (no_memory, cf)

pub conf_yaml_init-starts :
    (w : World) (cf : Conf)
    → w.file.starts ≡ true
    → conf_yaml_init w cf ≡ (done, record cf { valid_parser = true; events = w.file.events })
unfolding conf_yaml_init
conf_yaml_init-starts w cf starts = rw (conf_yaml_init, starts) refl
