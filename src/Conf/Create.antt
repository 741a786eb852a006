-- ===== src/Conf/Create.antt =====
-- `conf_open`, `conf_create` and `conf_destroy`, but for the file handle.
pub mod Passes
pub mod Accepted
mod Tests
use timeseries_database.Base.{
  ℕ, Bool, true, false, Option, none, some, List, [], ◌∷◌, if◌then◌else◌,
}
use timeseries_database.Strings.{CString, Status, done, error, no_memory, string_deinit}
use timeseries_database.Conf.Pool.{ConfPool, conf_pool_deinit}
use timeseries_database.Conf.State.{Elements, World, Conf, on_done}
use timeseries_database.Conf.Parse.{conf_parse}
use timeseries_database.Conf.Post.{Qsort, conf_pre_validate, conf_post_validate}

abbrev pub conf_default_args : ℕ
conf_default_args = 3

abbrev pub conf_default_pool : ℕ
conf_default_pool = 8

-- `struct conf` after the three requests for memory of `conf_open`.
abbrev pub opened : Conf
opened = record {
  arg = record { items = []; nalloc = conf_default_args };
  pool = record { items = []; nalloc = conf_default_pool };
  depth = 0;
  seq = false;
  valid_parser = false;
  valid_event = false;
  valid_token = false;
  sound = false;
  parsed = false;
  events = [];
  requests = 3;
}

-- `readable` is whether `fopen` succeeds; `none` is `NULL`.
unfoldable pub conf_open : World → (readable : Bool) → Option Conf
conf_open w readable =
    if readable
    then (if w.granted 0
        then (if w.granted 1 then (if w.granted 2 then some opened else none) else none)
        else none)
    else none

-- The loops of `conf_destroy`: `none` is a failed assert.
unfoldable pub destroy_args : List CString → Option (List CString)
destroy_args [] = some []
destroy_args (value ∷ items) = elim (string_deinit value) [
  | none ↦ none
  | some _ ↦ destroy_args items
]

unfoldable pub destroy_pools : List ConfPool → Option (List ConfPool)
destroy_pools [] = some []
destroy_pools (cp ∷ pools) = elim (conf_pool_deinit cp) [
  | none ↦ none
  | some _ ↦ destroy_pools pools
]

unfoldable pub conf_destroy : Conf → Option Conf
conf_destroy cf = elim (destroy_args cf.arg.items) [
  | none ↦ none
  | some args ↦ elim (destroy_pools cf.pool.items) [
    | none ↦ none
    | some pools ↦ some (record cf {
      arg = record cf.arg { items = args };
      pool = record cf.pool { items = pools };
    })
  ]
]

-- The end of `conf_create`: an error destroys what was read, and the result is `NULL`.
unfoldable pub create_end : Option (Status × Conf) → Option (Option Conf)
create_end none = none
create_end (some (done, cf)) = some (some cf)
create_end (some (error, cf)) = elim (conf_destroy cf) [ none ↦ none | some _ ↦ some none ]
create_end (some (no_memory, cf)) = elim (conf_destroy cf) [ none ↦ none | some _ ↦ some none ]

unfoldable pub conf_create : World → Qsort → (readable is_multilevel : Bool) → Option (Option Conf)
conf_create w qsort readable is_multilevel = elim (conf_open w readable) [
  | none ↦ some none
  | some cf ↦ create_end (
      on_done (conf_pre_validate w is_multilevel cf)
        (λ cf. on_done (conf_parse w cf) (λ cf. some (conf_post_validate qsort cf))))
]
