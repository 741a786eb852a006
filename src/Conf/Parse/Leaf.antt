-- ===== src/Conf/Parse/Leaf.antt =====
-- A leaf: the calls of `core_call` that make a setting, with the end of a sequence.
use timeseries_database.Base.{
  ℕ, ◌+◌, ◌≡◌, refl, Bool, true, false, Option, none, some, List, [], ◌∷◌,
}
use timeseries_database.Strings.{text, Status, done, error, no_memory}
use timeseries_database.Conf.Yaml.{scalar_event, sequence_end_event}
use timeseries_database.Conf.Pool.{ConfPool}
use timeseries_database.Conf.Command.{conf_commands, run_command}
use timeseries_database.Conf.State.{World, Conf, conf_pop_scalar, conf_event_done}
use timeseries_database.Conf.Parse.{
  Next, stop, go_on, core_call, core_switch, core_rest, scalar_case, conf_handler, handle, pop_leaf,
}
use timeseries_database.Conf.Tree.{IsScalar}
use timeseries_database.Conf.Parse.Scalars.{state, left, push-scalar, pop-text}

module _ (w : World) (plenty : (n : ℕ) → w.granted n ≡ true) (base : Conf) where
  -- What a leaf leads to, by what its setting does to the pool.
  abbrev pub after_leaf : Option (Status × ConfPool) → (ConfPool → Conf) → Option (Next × Conf)
  after_leaf none k = none
  after_leaf (some (done, cp)) k = some (go_on true false true, k cp)
  after_leaf (some (error, cp)) k = some (stop error, k cp)
  after_leaf (some (no_memory, cp)) k = some (stop no_memory, k cp)

  module _ (key name : List ℕ) (cp : ConfPool) (pools : List ConfPool) (room requests : ℕ)
      (key_ok : IsScalar key) where
    abbrev setting : List ℕ → Option (Status × ConfPool)
    setting s = run_command true conf_commands (text key) (text s) cp

    -- The switch pushes a third argument, and finds a leaf.
    switch-leaf :
        (s : List ℕ) (seq : Bool)
        → IsScalar s
        → core_switch w true
            (scalar_event s)
            (record (state base (text key ∷ text name ∷ []) (cp ∷ pools) room 2 seq requests) {
              valid_event = true;
            })
          ≡ some (
            go_on true false true,
            record (state base
                (text s ∷ text key ∷ text name ∷ [])
                (cp ∷ pools)
                room
                2
                seq
                (requests + 1 + 1)) { valid_event = true },
          )
    unfolding core_switch scalar_case
    switch-leaf s true ok =
        rw
          (
            core_switch,
            scalar_case,
            push-scalar w plenty base s (text key ∷ text name ∷ []) (cp ∷ pools) room 2 requests
                true ok refl refl,
          )
          refl
    switch-leaf s false ok =
        rw
          (
            core_switch,
            scalar_case,
            push-scalar w plenty base s (text key ∷ text name ∷ []) (cp ∷ pools) room 2 requests
                false ok refl refl,
          )
          refl

    pop_leaf-state :
        (s : List ℕ) (seq : Bool) (asked : ℕ) (cp' : ConfPool)
        → IsScalar s
        → pop_leaf true
            (state base (text s ∷ text key ∷ text name ∷ []) (cp' ∷ pools) room 2 seq asked)
          ≡ some (state base (left key name seq) (cp' ∷ pools) room 2 seq asked)
    unfolding pop_leaf conf_pop_scalar
    pop_leaf-state s true asked cp' ok =
        rw (pop_leaf, conf_pop_scalar, pop-text s (text key ∷ text name ∷ []) ok) refl
    pop_leaf-state s false asked cp' ok =
        rw
          (
            pop_leaf,
            conf_pop_scalar,
            pop-text s (text key ∷ text name ∷ []) ok,
            conf_pop_scalar,
            pop-text key (text name ∷ []) key_ok,
          )
          refl

    -- A leaf: the setting is made, and the leaf is popped.
    rest-leaf :
        (s : List ℕ) (seq : Bool) (asked : ℕ)
        → IsScalar s
        → (r : Option (Status × ConfPool)) → setting s ≡ r
        → core_rest w (
          go_on true false true,
          state base (text s ∷ text key ∷ text name ∷ []) (cp ∷ pools) room 2 seq asked,
        )
          ≡ after_leaf r
              (λ cp'. state base (left key name seq) (cp' ∷ pools) room 2 seq (asked + 1))
    unfolding core_rest conf_handler handle
    rest-leaf s seq asked ok none e = rw (core_rest, conf_handler, handle, plenty asked, e) refl
    rest-leaf s seq asked ok (some (done, cp')) e =
        rw
          (
            core_rest,
            conf_handler,
            handle,
            plenty asked,
            e,
            pop_leaf-state s seq (asked + 1) cp' ok,
          )
          refl
    rest-leaf s seq asked ok (some (error, cp')) e =
        rw
          (
            core_rest,
            conf_handler,
            handle,
            plenty asked,
            e,
            pop_leaf-state s seq (asked + 1) cp' ok,
          )
          refl
    rest-leaf s seq asked ok (some (no_memory, cp')) e =
        rw
          (
            core_rest,
            conf_handler,
            handle,
            plenty asked,
            e,
            pop_leaf-state s seq (asked + 1) cp' ok,
          )
          refl

    pub call-leaf :
        (s : List ℕ) (seq : Bool)
        → IsScalar s
        → core_call w true
            (scalar_event s)
            (state base (text key ∷ text name ∷ []) (cp ∷ pools) room 2 seq requests)
          ≡ after_leaf (setting s) (λ cp'.
            state base (left key name seq) (cp' ∷ pools) room 2 seq (requests + 1 + 1 + 1))
    unfolding core_call conf_event_done
    call-leaf s seq ok =
        rw (core_call, switch-leaf s seq ok)
          (rest-leaf s seq (requests + 1 + 1) ok (setting s) refl)

    pub call-sequence_end :
        core_call w true sequence_end_event
          (state base (text key ∷ text name ∷ []) (cp ∷ pools) room 2 true requests)
        ≡ some
            (go_on false false true, state base (text name ∷ []) (cp ∷ pools) room 2 false requests)
    unfolding core_call core_switch core_rest conf_event_done conf_pop_scalar
    call-sequence_end =
        rw (core_call, core_switch, conf_pop_scalar, pop-text key (text name ∷ []) key_ok) refl
