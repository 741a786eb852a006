-- ===== src/Conf/Tokens.antt =====
-- `conf_validate_document` and `conf_validate_tokens`: one document, and no token of the flow
-- style, of a directive, of an anchor or of a tag.
pub mod BlockStyle
use timeseries_database.Base.{
  ℕ, suc, ◌+◌, Bool, true, false, List, [], ◌∷◌, ◌==◌, if◌then◌else◌, arith, Option, none, some,
}
use timeseries_database.Strings.{Status, done, error, no_memory}
use timeseries_database.Conf.Yaml.{
  YamlFile, Load, load_failed, root_node, no_root, Token, no_token, stream_start_token,
  stream_end_token, version_directive_token, tag_directive_token, document_start_token,
  document_end_token, block_sequence_start_token, block_mapping_start_token, block_end_token,
  flow_sequence_start_token, flow_sequence_end_token, flow_mapping_start_token,
  flow_mapping_end_token, block_entry_token, flow_entry_token, key_token, value_token, alias_token,
  anchor_token, tag_token, scalar_token, unknown_token,
}
use timeseries_database.Conf.State.{World, Conf, conf_yaml_init, conf_yaml_deinit, on_started}

-- The loop of `conf_validate_document` from `count` on: whether it found one document, and whether
-- it read to the end.
unfoldable pub document_loop : List Load → ℕ → Status × ℕ
document_loop [] count = (error, count)
document_loop (load_failed ∷ loads) count = (error, count)
document_loop (no_root ∷ loads) count = (done, count)
document_loop (root_node ∷ loads) count = document_loop loads (count + 1)

-- The rest of `conf_validate_document`, once the parser is started.
unfoldable pub check_documents : List Load → Conf → Status × Conf
check_documents loads cf =
    let (read, count) = document_loop loads 0 in
    elim read [
      | done ↦ (if count == 1 then done else error, conf_yaml_deinit cf)
      | error ↦ (error, conf_yaml_deinit cf)
      | no_memory ↦ (error, conf_yaml_deinit cf)
    ]

unfoldable pub conf_validate_document : World → Conf → Status × Conf
conf_validate_document w cf = on_started (conf_yaml_init w cf) (check_documents w.file.documents)

-- What the `switch` does with a token: it goes on, it is done, or it is an error.
pub data Sort : Type 0 where
  allowed final disallowed : Sort

unfoldable pub token_sort : Token → Sort
token_sort no_token = disallowed
token_sort version_directive_token = disallowed
token_sort tag_directive_token = disallowed
token_sort document_start_token = disallowed
token_sort document_end_token = disallowed
token_sort flow_sequence_start_token = disallowed
token_sort flow_sequence_end_token = disallowed
token_sort flow_mapping_start_token = disallowed
token_sort flow_mapping_end_token = disallowed
token_sort flow_entry_token = disallowed
token_sort alias_token = disallowed
token_sort anchor_token = disallowed
token_sort tag_token = disallowed
token_sort block_sequence_start_token = allowed
token_sort block_mapping_start_token = allowed
token_sort block_end_token = allowed
token_sort block_entry_token = allowed
token_sort key_token = allowed
token_sort value_token = allowed
token_sort scalar_token = allowed
token_sort stream_start_token = allowed
token_sort stream_end_token = final
token_sort unknown_token = disallowed

-- When the parser fails, it is left as it is: there is no token left in the list.
unfoldable pub token_loop : List Token → Conf → Status × Conf
token_loop [] cf = (error, cf)
token_loop (token ∷ tokens) cf = elim (token_sort token) [
  | allowed ↦ token_loop tokens (record cf { valid_token = false })
  | final ↦ (done, conf_yaml_deinit (record cf { valid_token = false }))
  | disallowed ↦ (error, conf_yaml_deinit (record cf { valid_token = false }))
]

unfoldable pub conf_validate_tokens : World → Conf → Status × Conf
conf_validate_tokens w cf = on_started (conf_yaml_init w cf) (token_loop w.file.tokens)
