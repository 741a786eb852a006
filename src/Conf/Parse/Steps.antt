-- ===== src/Conf/Parse/Steps.antt =====
-- The calls of `conf_parse_core` on the events of a tree, one lemma for each kind of event, when
-- memory never runs out.
use timeseries_database.Base.{
  ℕ, ◌+◌, ◌*◌, ◌≡◌, ◌^◌, ◌<◌, arith, ltb, u32, refl, Bool, true, false, some, List, [], ◌∷◌, ◌==◌,
  length, if◌then◌else◌, Bool-cases, inl, inr,
}
use timeseries_database.Strings.{CString, text, done}
use timeseries_database.Conf.Yaml.{
  scalar_event, sequence_start_event, mapping_start_event, mapping_end_event,
}
use timeseries_database.Conf.Pool.{ConfPool, conf_pool_init}
use timeseries_database.Conf.State.{World, Conf, conf_pop_scalar, conf_event_done}
use timeseries_database.Conf.Parse.{
  stop, go_on, core_call, core_switch, core_rest, scalar_case, conf_handler, handle, pop_leaf,
}
use timeseries_database.Conf.Tree.{IsScalar}
use timeseries_database.Conf.Parse.Scalars.{state, push-scalar, pop-text}

module _ (w : World) (plenty : (n : ℕ) → w.granted n ≡ true) (base : Conf) where
  -- A key: it is pushed, and nothing else happens.
  pub call-key :
      (s name : List ℕ) (pools : List ConfPool) (room requests : ℕ)
      → IsScalar s
      → core_call w true (scalar_event s) (state base (text name ∷ []) pools room 2 false requests)
        ≡ some (
          go_on false false true,
          state base (text s ∷ text name ∷ []) pools room 2 false (requests + 1 + 1),
        )
  unfolding core_call core_switch scalar_case core_rest conf_event_done
  call-key s name pools room requests ok =
      rw
        (
          core_call,
          core_switch,
          scalar_case,
          push-scalar w plenty base s (text name ∷ []) pools room 2 requests false ok refl refl,
        )
        refl

  -- The name of a pool: the pool is made.
  switch-name :
      (s : List ℕ) (has_data : Bool) (pools : List ConfPool) (room requests : ℕ)
      → IsScalar s
      → ltb (length pools + 1) (2 ^ 32) ≡ true
      → 0 < length pools + room
      → core_switch w has_data
          (scalar_event s)
          (record (state base [] pools room 1 false requests) { valid_event = true })
        ≡ some (
          go_on false true true,
          record (state base
              (text s ∷ [])
              (w.junk (length pools) ∷ pools)
              (if length pools == room then u32 (room * 2) else room)
              1
              false
              (requests + 1 + 1 + 1)) { valid_event = true },
        )
  unfolding core_switch scalar_case
  switch-name s has_data pools room requests ok small has_room =
      elim (Bool-cases (length pools == room)) [
        | inl full ↦
            let some_pool : (length pools == 0) ≡ false = ground arith in
            rw
              (
                core_switch,
                scalar_case,
                push-scalar w plenty base s [] pools room 1 requests false ok refl refl,
                small,
                full,
                some_pool,
                plenty (requests + 1 + 1),
              )
              refl
        | inr free ↦
            rw
              (
                core_switch,
                scalar_case,
                push-scalar w plenty base s [] pools room 1 requests false ok refl refl,
                small,
                free,
              )
              refl
      ]

  pub call-name :
      (s : List ℕ) (has_data : Bool) (cp : ConfPool) (pools : List ConfPool) (room requests : ℕ)
      → IsScalar s
      → ltb (length pools + 1) (2 ^ 32) ≡ true
      → 0 < length pools + room
      → conf_pool_init true (w.junk (length pools)) (text s) ≡ some (done, cp)
      → core_call w has_data (scalar_event s) (state base [] pools room 1 false requests)
        ≡ some (
          go_on false true true,
          state base
              (text s ∷ [])
              (cp ∷ pools)
              (if length pools == room then u32 (room * 2) else room)
              1
              false
              (requests + 1 + 1 + 1 + 1),
        )
  unfolding core_call conf_event_done core_rest conf_handler handle pop_leaf
  call-name s has_data cp pools room requests ok small has_room e =
      rw
        (
          core_call,
          switch-name s has_data pools room requests ok small has_room,
          core_rest,
          conf_handler,
          handle,
          plenty (requests + 1 + 1 + 1),
          e,
        )
        refl

  pub call-mapping_start :
      (args : List CString) (pools : List ConfPool) (room requests : ℕ)
      → core_call w true mapping_start_event (state base args pools room 1 false requests)
        ≡ some (go_on false false true, state base args pools room 2 false requests)
  unfolding core_call core_switch core_rest conf_event_done
  call-mapping_start args pools room requests = refl

  pub call-sequence_start :
      (args : List CString) (pools : List ConfPool) (room requests : ℕ)
      → core_call w true sequence_start_event (state base args pools room 2 false requests)
        ≡ some (go_on false false true, state base args pools room 2 true requests)
  unfolding core_call core_switch core_rest conf_event_done
  call-sequence_start args pools room requests = refl

  -- The end of a pool: its name is popped.
  pub call-mapping_end :
      (s : List ℕ) (pools : List ConfPool) (room requests : ℕ)
      → IsScalar s
      → core_call w true mapping_end_event (state base (text s ∷ []) pools room 2 false requests)
        ≡ some (go_on false false true, state base [] pools room 1 false requests)
  unfolding core_call core_switch core_rest conf_event_done conf_pop_scalar
  call-mapping_end s pools room requests ok =
      rw (core_call, core_switch, conf_pop_scalar, pop-text s [] ok) refl

  pub call-last :
      (has_data : Bool) (pools : List ConfPool) (room requests : ℕ)
      → core_call w has_data mapping_end_event (state base [] pools room 1 false requests)
        ≡ some (stop done, state base [] pools room 0 false requests)
  unfolding core_call core_switch core_rest conf_event_done
  call-last has_data pools room requests = refl
