-- ===== src/Conf/Structure/OneSequence.antt =====
-- Of the files that are trees, `conf_validate_structure` accepts those with exactly one sequence
-- in each pool.
use timeseries_database.Base.{
  ℕ, suc, ◌≡◌, refl, ap, ◌∙◌, Bool, true, false, ◌&&◌, Option, none, some, List, [], ◌∷◌, ◌==◌,
  if◌then◌else◌, arith,
}
use timeseries_database.Strings.{Status, done, error}
use timeseries_database.Conf.Yaml.{
  Event, sequence_end_event, mapping_end_event, document_end_event, stream_end_event,
}
use timeseries_database.Conf.State.{World, Conf, conf_yaml_init-starts, on_done}
use timeseries_database.Conf.Tree.{
  Item, pair, sequence, PoolTree, elem_events, item_events, pool_events, file_events,
}
use timeseries_database.Conf.Structure.{
  Scan, structure_case, structure_loop, mapping_start, mapping_end, sequence_start, sequence_end,
  scalar, scan_start, conf_validate_structure,
}

-- The status of a run.
abbrev pub verdict : Option (Status × Conf) → Option Status
verdict none = none
verdict (some (status, cf)) = some status

-- A state in a pool: `n` is `count[2]`.
abbrev inside : ℕ → Bool → Scan
inside n seq = record {
  depth = 2;
  count = 0 ∷ 1 ∷ n ∷ [];
  seq = seq;
  ended = false;
  failed = false;
}

-- `count[2]` between the settings of a pool, by whether there was one before with no sequence, and
-- between the elements of a sequence.
abbrev settled : Bool → ℕ
settled true = 2
settled false = 0

abbrev keyed : Bool → ℕ
keyed true = 2
keyed false = 1

-- A state between two pools.
abbrev between : Bool → Scan
between b = record {
  depth = 1;
  count = 0 ∷ 0 ∷ settled b ∷ [];
  seq = false;
  ended = false;
  failed = false;
}

abbrev loop : List Event → Scan → Conf → Option Status
loop events s cf = verdict (structure_loop events s cf)

-- The items of a pool, told by whether a sequence was found before; a second one is an error.
unfoldable pub check_items : Bool → List Item → (Bool → Option Status) → Option Status
check_items seq [] k = k seq
check_items seq (pair _ _ ∷ items) k = check_items seq items k
check_items false (sequence _ _ ∷ items) k = check_items true items k
check_items true (sequence _ _ ∷ items) k = some error

loop-elems :
    (elems : List (List ℕ)) (rest : List Event) (b : Bool) (cf : Conf) (r : Option Status)
    → ((b : Bool) (cf : Conf) → loop rest (inside (keyed b) true) cf ≡ r)
    → loop (elem_events elems rest) (inside (keyed b) true) cf ≡ r
unfolding elem_events structure_loop structure_case scalar
loop-elems [] rest b cf r k = k b cf
loop-elems (s ∷ elems) rest false cf r k =
    loop-elems elems rest true (record cf { valid_event = false }) r k
loop-elems (s ∷ elems) rest true cf r k =
    loop-elems elems rest false (record cf { valid_event = false }) r k

abbrev After : List Event → (Bool → Option Status) → Type 0
After rest k =
    (b seq : Bool) (cf : Conf) → loop (mapping_end_event ∷ rest) (inside (settled b) seq) cf ≡ k seq

loop-items :
    (items : List Item) (rest : List Event) (k : Bool → Option Status) (b seq : Bool) (cf : Conf)
    → After rest k
    → loop (item_events items (mapping_end_event ∷ rest)) (inside (settled b) seq) cf
      ≡ check_items seq items k
unfolding item_events check_items structure_loop structure_case scalar sequence_start sequence_end
loop-items [] rest k b seq cf after = after b seq cf
loop-items (pair key value ∷ items) rest k true seq cf after =
    loop-items items rest k true seq (record cf { valid_event = false }) after
loop-items (pair key value ∷ items) rest k false seq cf after =
    loop-items items rest k true seq (record cf { valid_event = false }) after
loop-items (sequence key elems ∷ items) rest k true true cf after = refl
loop-items (sequence key elems ∷ items) rest k false true cf after = refl
loop-items (sequence key elems ∷ items) rest k true false cf after =
    loop-elems elems (sequence_end_event ∷ item_events items (mapping_end_event ∷ rest)) false
      (record cf { valid_event = false }) (check_items true items k)
      (λ b cf'. loop-items items rest k false true (record cf' { valid_event = false }) after)
loop-items (sequence key elems ∷ items) rest k false false cf after =
    loop-elems elems (sequence_end_event ∷ item_events items (mapping_end_event ∷ rest)) false
      (record cf { valid_event = false }) (check_items true items k)
      (λ b cf'. loop-items items rest k false true (record cf' { valid_event = false }) after)

-- How many sequences a pool has.
unfoldable pub sequences : List Item → ℕ
sequences [] = 0
sequences (pair _ _ ∷ items) = sequences items
sequences (sequence _ _ ∷ items) = suc (sequences items)

unfoldable pub all_one : List PoolTree → Bool
all_one [] = true
all_one (p ∷ ps) = (sequences p.items == 1) && all_one ps

module _ (r : Option Status) where
  abbrev one_more : Bool → Option Status
  one_more seq = if seq then r else some error

  check-none_left :
      (items : List Item)
      → check_items true items one_more ≡ (if sequences items == 0 then r else some error)
  unfolding check_items sequences
  check-none_left [] = refl
  check-none_left (pair _ _ ∷ items) = check-none_left items
  check-none_left (sequence _ _ ∷ items) = ground arith

  check-one_left :
      (items : List Item)
      → check_items false items one_more ≡ (if sequences items == 1 then r else some error)
  unfolding check_items sequences
  check-one_left [] = refl
  check-one_left (pair _ _ ∷ items) = check-one_left items
  check-one_left (sequence _ _ ∷ items) = check-none_left items ∙ ground arith

-- The end of a pool, after a sequence or with none.
mapping-end :
    (rest : List Event) (r : Option Status) (b seq : Bool) (cf : Conf)
    → ((cf : Conf) → loop rest (between b) cf ≡ r)
    → loop (mapping_end_event ∷ rest) (inside (settled b) seq) cf ≡ one_more r seq
unfolding structure_loop structure_case mapping_end
mapping-end rest r true true cf after = after (record cf { valid_event = false })
mapping-end rest r false true cf after = after (record cf { valid_event = false })
mapping-end rest r true false cf after = refl
mapping-end rest r false false cf after = refl

abbrev accepted : List PoolTree → Option Status
accepted ps = if all_one ps then some done else some error

accepted-∷ :
    (p : PoolTree) (ps : List PoolTree)
    → (if sequences p.items == 1 then accepted ps else some error) ≡ accepted (p ∷ ps)
unfolding all_one
accepted-∷ p ps = ground arith

loop-pools :
    (ps : List PoolTree) (rest : List Event) (b : Bool) (cf : Conf)
    → ((b : Bool) (cf : Conf) → loop rest (between b) cf ≡ some done)
    → loop (pool_events ps rest) (between b) cf ≡ accepted ps
unfolding pool_events all_one structure_loop structure_case scalar mapping_start
loop-pools [] rest b cf after = after b cf
loop-pools (p ∷ ps) rest b cf after =
    loop-items p.items (pool_events ps rest) (one_more (accepted ps)) b false
      (record cf { valid_event = false })
      (λ b seq cf'.
        mapping-end (pool_events ps rest) (accepted ps) b seq cf'
          (λ cf''. loop-pools ps rest b cf'' after))
    ∙ check-one_left (accepted ps) p.items
    ∙ accepted-∷ p ps

-- The end of a file.
loop-end :
    (b : Bool) (cf : Conf)
    → loop (mapping_end_event ∷ document_end_event ∷ stream_end_event ∷ []) (between b) cf
      ≡ some done
unfolding structure_loop structure_case mapping_end
loop-end true cf = refl
loop-end false cf = refl

loop-file : (ps : List PoolTree) (cf : Conf) → loop (file_events ps) scan_start cf ≡ accepted ps
unfolding file_events structure_loop structure_case mapping_start
loop-file ps cf =
    loop-pools ps (mapping_end_event ∷ document_end_event ∷ stream_end_event ∷ []) false
      (record cf { valid_event = false }) loop-end

-- With a parser that starts, conf_validate_structure accepts the events of a tree if each pool has
-- exactly one sequence, and returns -1 otherwise; in both cases no access of count is outside its
-- elements.
pub conf_validate_structure-all_one :
    (w : World) (cf : Conf) (ps : List PoolTree)
    → w.file.starts ≡ true
    → w.file.events ≡ file_events ps
    → verdict (conf_validate_structure w cf) ≡ (if all_one ps then some done else some error)
unfolding conf_validate_structure
conf_validate_structure-all_one w cf ps starts events =
    ap (λ r. verdict (on_done (some r) (structure_loop w.file.events scan_start)))
      (conf_yaml_init-starts w cf starts)
    ∙ ap (λ es. loop es scan_start started) events
    ∙ loop-file ps started
  where
    started : Conf
    started = record cf { valid_parser = true; events = w.file.events }
