-- ===== src/Conf/Pool.antt =====
-- `struct conf_pool`, and setting its fields by their names in the file.
use timeseries_database.Base.{Bool, false, Option, none, some, [], ◌∷◌, ◌==◌, if◌then◌else◌}
use timeseries_database.Base.Int.{ℤ, pos, negsuc}
use timeseries_database.Strings.{
  CString, text, Status, done, error, no_memory, string_init, string_deinit, string_duplicate,
  is_null, content, string_compare,
}
use timeseries_database.Util.{str_atoi}

pub record ConfPool : Type 0 where
  pub name : CString
  pub port : ℤ
  pub addr : CString
  pub workers : ℤ
  pub timeout : ℤ
  pub backlog : ℤ
  pub max_slots : ℤ
  pub datadir : CString

abbrev pub conf_unset_num : ℤ
conf_unset_num = negsuc 0

-- `granted` is whether the copy of the name finds memory.
unfoldable pub conf_pool_init : (granted : Bool) → ConfPool → CString → Option (Status × ConfPool)
conf_pool_init granted cp name =
    let fresh = record cp {
      timeout = conf_unset_num;
      backlog = conf_unset_num;
      workers = conf_unset_num;
      port = conf_unset_num;
      datadir = string_init;
      addr = string_init;
    } in
    elim (string_duplicate granted string_init name) [
      | none ↦ none
      | some (status, copy) ↦ some (status, record fresh { name = copy })
    ]

unfoldable pub conf_pool_deinit : ConfPool → Option ConfPool
conf_pool_deinit cp = elim (string_deinit cp.name) [
  | none ↦ none
  | some name ↦ elim (string_deinit cp.addr) [
    | none ↦ none
    | some addr ↦ elim (string_deinit cp.datadir) [
      | none ↦ none
      | some datadir ↦ some (record cp { name = name; addr = addr; datadir = datadir })
    ]
  ]
]

-- What a setter returns: `CONF_OK`, or one of its messages.
pub data Verdict : Type 0 where
  conf_ok is_duplicate invalid_value not_number not_bool : Verdict

-- The setters work on one field, here passed and returned as a value.
unfoldable pub conf_set_string : (granted : Bool) → CString → CString → Option (Verdict × CString)
conf_set_string granted field value =
    if is_null field.bytes
    then elim (string_duplicate granted field value) [
      | none ↦ none
      | some (done, copy) ↦ some (conf_ok, copy)
      | some (error, copy) ↦ some (invalid_value, copy)
      | some (no_memory, copy) ↦ some (invalid_value, copy)
    ]
    else some (is_duplicate, field)

abbrev pub is_unset : ℤ → Bool
is_unset (pos _) = false
is_unset (negsuc n) = n == 0

unfoldable pub conf_set_num : ℤ → CString → Option (Verdict × ℤ)
conf_set_num np value =
    if is_unset np
    then elim (str_atoi (content value)) [
      | none ↦ none
      | some (pos num) ↦ some (conf_ok, pos num)
      | some (negsuc num) ↦ some (not_number, np)
    ]
    else some (is_duplicate, np)

abbrev pub true_str : CString
true_str = text (b't' ∷ b'r' ∷ b'u' ∷ b'e' ∷ [])

abbrev pub false_str : CString
false_str = text (b'f' ∷ b'a' ∷ b'l' ∷ b's' ∷ b'e' ∷ [])

abbrev pub is_zero : ℤ → Bool
is_zero (pos n) = n == 0
is_zero (negsuc _) = false

unfoldable pub conf_set_bool : ℤ → CString → Verdict × ℤ
conf_set_bool bp value =
    if is_unset bp
    then (if is_zero (string_compare value true_str)
        then (conf_ok, pos 1)
        else (if is_zero (string_compare value false_str)
            then (conf_ok, pos 0)
            else (not_bool, bp)))
    else (is_duplicate, bp)

-- `conf_set_hash` and `conf_set_service_type` have the body of `conf_set_string`.
unfoldable pub conf_set_hash : (granted : Bool) → CString → CString → Option (Verdict × CString)
conf_set_hash granted field value = conf_set_string granted field value

unfoldable pub conf_set_service_type :
    (granted : Bool) → CString → CString → Option (Verdict × CString)
conf_set_service_type granted field value = conf_set_string granted field value
