-- ===== src/Conf/Command.antt =====
-- `struct command` and the table `conf_commands`.
use timeseries_database.Base.{ℕ, Bool, Option, none, some, List, [], ◌∷◌, if◌then◌else◌}
use timeseries_database.Base.Int.{ℤ}
use timeseries_database.Strings.{CString, text, Status, done, error, string_compare}
use timeseries_database.Conf.Pool.{
  ConfPool, Verdict, conf_ok, conf_set_string, conf_set_num, is_zero,
}

-- An offset into `struct conf_pool`, of a field that a setter of strings or of numbers takes.
pub data Offset : Type 0 where
  addr_offset datadir_offset port_offset timeout_offset workers_offset : Offset
  backlog_offset max_slots_offset : Offset

pub data Setter : Type 0 where
  set_string set_num : Setter

pub record Command : Type 0 where
  pub name : CString
  pub set : Setter
  pub offset : Offset

abbrev command : List ℕ → Setter → Offset → Command
command name set offset = record { name = text name; set = set; offset = offset }

-- Without the entry that ends the table.
unfoldable pub conf_commands : List Command
conf_commands =
    command (b'a' ∷ b'd' ∷ b'd' ∷ b'r' ∷ []) set_string addr_offset
    ∷ command (b'p' ∷ b'o' ∷ b'r' ∷ b't' ∷ []) set_num port_offset
    ∷ command (b't' ∷ b'i' ∷ b'm' ∷ b'e' ∷ b'o' ∷ b'u' ∷ b't' ∷ []) set_num timeout_offset
    ∷ command (b'w' ∷ b'o' ∷ b'r' ∷ b'k' ∷ b'e' ∷ b'r' ∷ b's' ∷ []) set_num workers_offset
    ∷ command (b'b' ∷ b'a' ∷ b'c' ∷ b'k' ∷ b'l' ∷ b'o' ∷ b'g' ∷ []) set_num backlog_offset
    ∷ command (b'd' ∷ b'a' ∷ b't' ∷ b'a' ∷ b'd' ∷ b'i' ∷ b'r' ∷ []) set_string datadir_offset
    ∷ command (b'm' ∷ b'a' ∷ b'x' ∷ b'_' ∷ b's' ∷ b'l' ∷ b'o' ∷ b't' ∷ b's' ∷ []) set_num
        max_slots_offset
    ∷ []

-- A call of a setter on a field of strings or of numbers.
abbrev with_string :
    (granted : Bool) → CString → CString → (CString → ConfPool) → Option (Verdict × ConfPool)
with_string granted field value put = elim (conf_set_string granted field value) [
  | none ↦ none
  | some (verdict, field') ↦ some (verdict, put field')
]

abbrev with_num : ℤ → CString → (ℤ → ConfPool) → Option (Verdict × ConfPool)
with_num field value put = elim (conf_set_num field value) [
  | none ↦ none
  | some (verdict, field') ↦ some (verdict, put field')
]

-- `cmd->set(cf, cmd, data)`. A setter at a field of the other type is undefined.
unfoldable pub run_setter :
    (granted : Bool) → Setter → Offset → CString → ConfPool → Option (Verdict × ConfPool)
run_setter granted set_string addr_offset value cp =
    with_string granted cp.addr value (λ s. record cp { addr = s })
run_setter granted set_string datadir_offset value cp =
    with_string granted cp.datadir value (λ s. record cp { datadir = s })
run_setter granted set_num port_offset value cp =
    with_num cp.port value (λ n. record cp { port = n })
run_setter granted set_num timeout_offset value cp =
    with_num cp.timeout value (λ n. record cp { timeout = n })
run_setter granted set_num workers_offset value cp =
    with_num cp.workers value (λ n. record cp { workers = n })
run_setter granted set_num backlog_offset value cp =
    with_num cp.backlog value (λ n. record cp { backlog = n })
run_setter granted set_num max_slots_offset value cp =
    with_num cp.max_slots value (λ n. record cp { max_slots = n })
run_setter granted _ _ value cp = none

abbrev pub verdict_status : Verdict → Status
verdict_status conf_ok = done
verdict_status _ = error

-- The loop of `conf_handler` over the table: a key that it does not name is passed over.
unfoldable pub run_command :
    (granted : Bool) → List Command → (key value : CString) → ConfPool → Option (Status × ConfPool)
run_command granted [] key value cp = some (done, cp)
run_command granted (cmd ∷ cmds) key value cp =
    let rest = run_command granted cmds key value cp in
    if is_zero (string_compare key cmd.name)
    then elim (run_setter granted cmd.set cmd.offset value cp) [
      | none ↦ none
      | some (verdict, cp') ↦ some (verdict_status verdict, cp')
    ]
    else rest
