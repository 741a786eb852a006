-- ===== src/Conf/Create/Passes.antt =====
-- A file that is accepted, through `conf_pre_validate`.
use timeseries_database.Base.{
  ◌≡◌, refl, ap, sym, ◌∙◌, Bool, true, false, ◌||◌, not, List, [], ◌∷◌, if◌then◌else◌, Option, none,
  some,
}
use timeseries_database.Strings.{Status, done, error}
use timeseries_database.Conf.Yaml.{Load, root_node, no_root, Token, Event}
use timeseries_database.Conf.State.{
  World, Conf, conf_yaml_init-starts, conf_yaml_deinit, on_done, on_started,
}
use timeseries_database.Conf.Tokens.{
  document_loop, check_documents, conf_validate_document, token_loop, token_sort,
  conf_validate_tokens,
}
use timeseries_database.Conf.Tokens.BlockStyle.{IsBlockFile, end, more, sort-IsBlock}
use timeseries_database.Conf.Structure.{
  Scan, structure_case, structure_loop, scan_start, conf_validate_structure,
}
use timeseries_database.Conf.Structure.OneSequence.{
  all_one, verdict, conf_validate_structure-all_one,
}
use timeseries_database.Conf.Tree.{PoolTree, file_events}
use timeseries_database.Conf.Parse.Scalars.{state}
use timeseries_database.Conf.Post.{conf_pre_validate}

-- A state in which nothing is read yet.
abbrev pub unread : Conf → Conf
unread base = state base [] [] 8 0 false 3

-- A step that succeeds and leaves such a state.
abbrev pub Passes : Option (Status × Conf) → Type 0
Passes r = (base : Conf) × (r ≡ some (done, unread base))

started : World → Conf → Conf
started w base = record base { valid_parser = true; events = w.file.events }

Passes-document :
    (w : World) (base : Conf) (loads : List Load)
    → w.file.starts ≡ true
    → w.file.documents ≡ root_node ∷ no_root ∷ loads
    → Passes (some (conf_validate_document w (unread base)))
unfolding conf_validate_document check_documents document_loop conf_yaml_deinit started
Passes-document w base loads starts documents = (
  record (started w base) { valid_parser = false },
  ap (λ r. some (on_started r (check_documents w.file.documents)))
        (conf_yaml_init-starts w (unread base) starts)
      ∙ ap (λ ds. some (check_documents ds (unread (started w base)))) documents,
)

block-token_loop :
    (ts : List Token) (base : Conf) → IsBlockFile ts → Passes (some (token_loop ts (unread base)))
unfolding token_loop token_sort conf_yaml_deinit
block-token_loop _ base end = (record base { valid_token = false; valid_parser = false }, refl)
block-token_loop (t ∷ ts) base (more b f) =
    let (base', e) = block-token_loop ts (record base { valid_token = false }) f in
    (base', rw (token_loop, sort-IsBlock b) e)

Passes-tokens :
    (w : World) (base : Conf)
    → w.file.starts ≡ true
    → IsBlockFile w.file.tokens
    → Passes (some (conf_validate_tokens w (unread base)))
unfolding conf_validate_tokens started
Passes-tokens w base starts block =
    let (base', e) = block-token_loop w.file.tokens (started w base) block in
    (
      base',
      ap (λ r. some (on_started r (token_loop w.file.tokens)))
            (conf_yaml_init-starts w (unread base) starts)
          ∙ e,
    )

-- What `conf_validate_structure` leaves when it accepts.
Passes-if :
    (failed ended : Bool) (base : Conf) (rest : Option (Status × Conf))
    → (verdict rest ≡ some done → Passes rest)
    → verdict (
        if failed
        then some (error, conf_yaml_deinit (unread base))
        else (if ended then some (done, conf_yaml_deinit (unread base)) else rest))
      ≡ some done
    → Passes (
        if failed
        then some (error, conf_yaml_deinit (unread base))
        else (if ended then some (done, conf_yaml_deinit (unread base)) else rest))
unfolding conf_yaml_deinit
Passes-if true ended base rest k e = cc
Passes-if false true base rest k e = (record base { valid_parser = false }, refl)
Passes-if false false base rest k e = k e

Passes-scan :
    (r : Option Scan) (events : List Event) (base : Conf)
    → ((s : Scan)
        → verdict (structure_loop events s (unread base)) ≡ some done
        → Passes (structure_loop events s (unread base)))
    → (event : Event) (s : Scan) → structure_case event s ≡ r
    → verdict (structure_loop (event ∷ events) s (unread base)) ≡ some done
    → Passes (structure_loop (event ∷ events) s (unread base))
unfolding structure_loop
Passes-scan none events base k event s e = rw (structure_loop, e) (λ v. cc)
Passes-scan (some s') events base k event s e =
    rw (structure_loop, e)
      (Passes-if s'.failed s'.ended base (structure_loop events s' (unread base)) (k s'))

Passes-structure_loop :
    (events : List Event) (s : Scan) (base : Conf)
    → verdict (structure_loop events s (unread base)) ≡ some done
    → Passes (structure_loop events s (unread base))
unfolding structure_loop
Passes-structure_loop [] s base e = cc
Passes-structure_loop (event ∷ events) s base e =
    Passes-scan (structure_case event s) events base (λ s'. Passes-structure_loop events s' base)
      event s refl e

Passes-structure :
    (w : World) (base : Conf) (ps : List PoolTree) (is_multilevel : Bool)
    → w.file.starts ≡ true
    → w.file.events ≡ file_events ps
    → (not is_multilevel || all_one ps) ≡ true
    → Passes (
        if is_multilevel then conf_validate_structure w (unread base) else some (done, unread base))
unfolding conf_validate_structure started
Passes-structure w base ps false starts events one = (base, refl)
Passes-structure w base ps true starts events one =
    let run = structure_loop w.file.events scan_start (unread (started w base)) in
    let runs : conf_validate_structure w (unread base) ≡ run =
      ap (λ r. on_done (some r) (structure_loop w.file.events scan_start))
        (conf_yaml_init-starts w (unread base) starts) in
    let accepts : verdict run ≡ some done =
      ap verdict (sym runs)
      ∙ conf_validate_structure-all_one w (unread base) ps starts events
      ∙ rw one refl in
    let (base', e) = Passes-structure_loop w.file.events scan_start (started w base) accepts in
    (base', runs ∙ e)

Passes-on_done :
    (r : Option (Status × Conf)) (k : Conf → Option (Status × Conf))
    → Passes r
    → ((base : Conf) → Passes (k (unread base)))
    → Passes (on_done r k)
Passes-on_done r k (base, e) f = let (base', e') = f base in (base', ap (λ r. on_done r k) e ∙ e')

pub Passes-pre_validate :
    (w : World) (base : Conf) (ps : List PoolTree) (loads : List Load) (is_multilevel : Bool)
    → w.file.starts ≡ true
    → w.file.documents ≡ root_node ∷ no_root ∷ loads
    → IsBlockFile w.file.tokens
    → w.file.events ≡ file_events ps
    → (not is_multilevel || all_one ps) ≡ true
    → Passes (conf_pre_validate w is_multilevel (unread base))
unfolding conf_pre_validate
Passes-pre_validate w base ps loads is_multilevel starts documents tokens events one =
    Passes-on_done _ _ (Passes-document w base loads starts documents) (λ base.
      Passes-on_done _ _ (Passes-tokens w base starts tokens) (λ base.
        Passes-on_done _ _ (Passes-structure w base ps is_multilevel starts events one)
          (λ base. (record base { sound = true }, refl))))
