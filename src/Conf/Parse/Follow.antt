-- ===== src/Conf/Parse/Follow.antt =====
-- What parsing a tree leaves, setting by setting and pool by pool.
use timeseries_database.Base.{ℕ, ◌≡◌, refl, true, Option, none, some, List, ◌∷◌, length}
use timeseries_database.Strings.{
  text, Status, done, error, no_memory, string_init, string_duplicate,
}
use timeseries_database.Conf.Pool.{ConfPool, conf_pool_init, conf_unset_num}
use timeseries_database.Conf.Command.{conf_commands, run_command}
use timeseries_database.Conf.State.{Conf, on_done}
use timeseries_database.Conf.Parse.{conf_end_parse}
use timeseries_database.Conf.Tree.{PoolTree, IsScalar, settings, Built, apply_settings, build_pools}
use timeseries_database.Conf.Parse.Scalars.{empty-false}

-- The status of a run, and the pools that it leaves.
abbrev pub outcome : Option (Status × Conf) → Built (List ConfPool)
outcome none = none
outcome (some (status, cf)) = some (status, cf.pool.items)

-- What follows `conf_parse_core`.
abbrev pub finish : Option (Status × Conf) → Built (List ConfPool)
finish r =
    outcome (
      on_done r
        (λ cf. on_done (conf_end_parse cf) (λ cf. some (done, record cf { parsed = true }))))

-- The settings of a pool and what follows them, in front of the pools that are there.
abbrev pub follow :
    Built ConfPool → (ConfPool → Built (List ConfPool)) → List ConfPool → Built (List ConfPool)
follow none k pools = none
follow (some (done, cp)) k pools = k cp
follow (some (error, cp)) k pools = some (error, cp ∷ pools)
follow (some (no_memory, cp)) k pools = some (no_memory, cp ∷ pools)

pub follow-same :
    (r : Built ConfPool) (k k' : ConfPool → Built (List ConfPool)) (pools : List ConfPool)
    → ((cp : ConfPool) → k cp ≡ k' cp)
    → follow r k pools ≡ follow r k' pools
follow-same none k k' pools e = refl
follow-same (some (done, cp)) k k' pools e = e cp
follow-same (some (error, cp)) k k' pools e = refl
follow-same (some (no_memory, cp)) k k' pools e = refl

abbrev pub one_setting : List ℕ → List ℕ → ConfPool → Built ConfPool
one_setting key s cp = run_command true conf_commands (text key) (text s) cp

pub follow-apply_settings :
    (key s : List ℕ) (sets : List (List ℕ × List ℕ)) (cp : ConfPool)
    (k : ConfPool → Built (List ConfPool)) (pools : List ConfPool) (r : Built ConfPool)
    → one_setting key s cp ≡ r
    → follow (apply_settings ((key, s) ∷ sets) cp) k pools
      ≡ follow r (λ cp'. follow (apply_settings sets cp') k pools) pools
unfolding apply_settings
follow-apply_settings key s sets cp k pools none e = rw (apply_settings, e) refl
follow-apply_settings key s sets cp k pools (some (done, cp')) e = rw (apply_settings, e) refl
follow-apply_settings key s sets cp k pools (some (error, cp')) e = rw (apply_settings, e) refl
follow-apply_settings key s sets cp k pools (some (no_memory, cp')) e = rw (apply_settings, e) refl

-- A pool after `conf_pool_init`: the number of slots is what its memory holds.
abbrev pub new_pool : ConfPool → List ℕ → ConfPool
new_pool junk name = record {
  name = text name;
  port = conf_unset_num;
  addr = record { len = 0; bytes = none };
  workers = conf_unset_num;
  timeout = conf_unset_num;
  backlog = conf_unset_num;
  max_slots = junk.max_slots;
  datadir = record { len = 0; bytes = none };
}

module _ (junk : ℕ → ConfPool) where
  pub pool_init-text :
      (n : ℕ) (name : List ℕ)
      → IsScalar name
      → conf_pool_init true (junk n) (text name) ≡ some (done, new_pool (junk n) name)
  unfolding conf_pool_init string_duplicate string_init
  pool_init-text n name ok = rw (conf_pool_init, string_duplicate, empty-false name ok.0, ok.1) refl

  pub build-follow :
      (p : PoolTree) (ps : List PoolTree) (pools : List ConfPool) (r : Built ConfPool)
      → IsScalar p.name
      → apply_settings (settings p.items) (new_pool (junk (length pools)) p.name) ≡ r
      → build_pools junk (p ∷ ps) pools ≡ follow r (λ cp. build_pools junk ps (cp ∷ pools)) pools
  unfolding build_pools
  build-follow p ps pools none ok e =
      rw (build_pools, pool_init-text (length pools) p.name ok, e) refl
  build-follow p ps pools (some (done, cp)) ok e =
      rw (build_pools, pool_init-text (length pools) p.name ok, e) refl
  build-follow p ps pools (some (error, cp)) ok e =
      rw (build_pools, pool_init-text (length pools) p.name ok, e) refl
  build-follow p ps pools (some (no_memory, cp)) ok e =
      rw (build_pools, pool_init-text (length pools) p.name ok, e) refl
