-- ===== src/Conf/Tokens/BlockStyle.antt =====
-- `conf_validate_tokens` accepts exactly the files in block style.
use timeseries_database.Base.{◌≡◌, ◌↔◌, refl, true, false, ap, sym, ◌∙◌, List, [], ◌∷◌}
use timeseries_database.Strings.{done, error}
use timeseries_database.Conf.Yaml.{
  Token, stream_end_token, stream_start_token, block_sequence_start_token,
  block_mapping_start_token, block_end_token, block_entry_token, key_token, value_token,
  scalar_token, no_token, version_directive_token, tag_directive_token, document_start_token,
  document_end_token, flow_sequence_start_token, flow_sequence_end_token, flow_mapping_start_token,
  flow_mapping_end_token, flow_entry_token, alias_token, anchor_token, tag_token, unknown_token,
}
use timeseries_database.Conf.State.{World, Conf, conf_yaml_init-starts, on_started}
use timeseries_database.Conf.Tokens.{
  allowed, disallowed, token_sort, token_loop, conf_validate_tokens,
}

-- The tokens of a file in block style: the marks of blocks, keys, values and scalars.
pub data IsBlock : Token → Type 0 where
  start : IsBlock stream_start_token
  block_sequence : IsBlock block_sequence_start_token
  block_mapping : IsBlock block_mapping_start_token
  block_end : IsBlock block_end_token
  block_entry : IsBlock block_entry_token
  key : IsBlock key_token
  value : IsBlock value_token
  scalar : IsBlock scalar_token

-- Such tokens up to the end of the stream.
pub data IsBlockFile : List Token → Type 0 where
  end : {rest : List Token} → IsBlockFile (stream_end_token ∷ rest)
  more : {t : Token} {ts : List Token} → IsBlock t → IsBlockFile ts → IsBlockFile (t ∷ ts)

-- A token as the `switch` tells them apart.
data View : Token → Type 0 where
  block : {t : Token} → IsBlock t → View t
  last : View stream_end_token
  wrong : {t : Token} → token_sort t ≡ disallowed → View t

view : (t : Token) → View t
unfolding token_sort
view stream_end_token = last
view stream_start_token = block start
view block_sequence_start_token = block block_sequence
view block_mapping_start_token = block block_mapping
view block_end_token = block block_end
view block_entry_token = block block_entry
view key_token = block key
view value_token = block value
view scalar_token = block scalar
view no_token = wrong refl
view version_directive_token = wrong refl
view tag_directive_token = wrong refl
view document_start_token = wrong refl
view document_end_token = wrong refl
view flow_sequence_start_token = wrong refl
view flow_sequence_end_token = wrong refl
view flow_mapping_start_token = wrong refl
view flow_mapping_end_token = wrong refl
view flow_entry_token = wrong refl
view alias_token = wrong refl
view anchor_token = wrong refl
view tag_token = wrong refl
view unknown_token = wrong refl

pub sort-IsBlock : {t : Token} → IsBlock t → token_sort t ≡ allowed
unfolding token_sort
sort-IsBlock start = refl
sort-IsBlock block_sequence = refl
sort-IsBlock block_mapping = refl
sort-IsBlock block_end = refl
sort-IsBlock block_entry = refl
sort-IsBlock key = refl
sort-IsBlock value = refl
sort-IsBlock scalar = refl

sound-∷ :
    {t : Token} (v : View t) (ts : List Token) (cf : Conf)
    → (token_loop (t ∷ ts) cf).0 ≡ done
    → ((token_loop ts (record cf { valid_token = false })).0 ≡ done → IsBlockFile ts)
    → IsBlockFile (t ∷ ts)
unfolding token_loop
sound-∷ (block b) ts cf e rest = more b (rest (sym (rw (token_loop, sort-IsBlock b) refl) ∙ e))
sound-∷ last ts cf e rest = end
sound-∷ {t} (wrong e') ts cf e rest = cc
  where
    failed : (token_loop (t ∷ ts) cf).0 ≡ error
    failed = rw (token_loop, e') refl

sound : (ts : List Token) (cf : Conf) → (token_loop ts cf).0 ≡ done → IsBlockFile ts
unfolding token_loop
sound [] cf e = cc
sound (t ∷ ts) cf e = sound-∷ (view t) ts cf e (sound ts (record cf { valid_token = false }))

complete : (ts : List Token) (cf : Conf) → IsBlockFile ts → (token_loop ts cf).0 ≡ done
unfolding token_loop token_sort
complete _ cf end = refl
complete (t ∷ ts) cf (more b f) =
    rw (token_loop, sort-IsBlock b) (complete ts (record cf { valid_token = false }) f)

-- With a parser that starts, conf_validate_tokens returns 0 exactly on the files whose tokens up
-- to the end of the stream are those of block style.
pub conf_validate_tokens-IsBlockFile :
    (w : World) (cf : Conf)
    → w.file.starts ≡ true
    → ((conf_validate_tokens w cf).0 ≡ done) ↔ IsBlockFile w.file.tokens
unfolding conf_validate_tokens
conf_validate_tokens-IsBlockFile w cf starts =
    (λ e. sound w.file.tokens started (sym runs ∙ e), λ f. runs ∙ complete w.file.tokens started f)
  where
    started : Conf
    started = record cf { valid_parser = true; events = w.file.events }

    runs : (conf_validate_tokens w cf).0 ≡ (token_loop w.file.tokens started).0
    runs = ap (λ r. (on_started r (token_loop w.file.tokens)).0) (conf_yaml_init-starts w cf starts)
