-- ===== src/Log/Levels.antt =====
-- The operations of log.c on the level and on the file of the log.
pub mod Range
use timeseries_database.Base.{
  ℕ, zero, suc, Bool, true, false, ◌||◌, not, Option, none, some, ◌==◌, if◌then◌else◌,
}
use timeseries_database.Base.Int.{ℤ, pos, negsuc}
use timeseries_database.Log.{
  Logger, Printed, log_emerg, log_pverb, lt_int, is_negative, stderr_fileno, log, log_safe,
  log_stderr, log_stderr_safe,
}

abbrev pub succ_int : ℤ → ℤ
succ_int (pos n) = pos (suc n)
succ_int (negsuc zero) = pos 0
succ_int (negsuc (suc n)) = negsuc n

abbrev pub pred_int : ℤ → ℤ
pred_int (pos zero) = negsuc 0
pred_int (pos (suc n)) = pos n
pred_int (negsuc n) = negsuc (suc n)

-- `MAX(LOG_EMERG, MIN(level, LOG_PVERB))`.
abbrev pub clamp : ℤ → ℤ
clamp level =
    let least = if lt_int level log_pverb then level else log_pverb in
    if lt_int least log_emerg then log_emerg else least

abbrev pub is_stderr : ℤ → Bool
is_stderr (pos n) = n == 2
is_stderr (negsuc _) = false

-- The `return -1` of `log_init`.
abbrev pub init_failed : Option Logger → Option (Bool × Logger)
init_failed none = none
init_failed (some l) = some (false, l)

-- `named` is whether the name of a file is given, and `opened` what `open` returns for it; the
-- failure is printed.
unfoldable pub log_init :
    (level : ℤ) (named : Bool) (opened text : ℤ) (written : Bool) → Logger → Option (Bool × Logger)
log_init level named opened text written l =
    let l' = record l { level = clamp level } in
    if named
    then (if is_negative opened
        then init_failed (log_stderr text written (record l' { fd = opened }))
        else some (true, record l' { fd = opened }))
    else some (true, record l' { fd = stderr_fileno })

-- The descriptor that is closed.
unfoldable pub log_deinit : Logger → Option ℤ
log_deinit l = if is_negative l.fd || is_stderr l.fd then none else some l.fd

unfoldable pub log_reopen : (opened text : ℤ) (written : Bool) → Logger → Option Logger
log_reopen opened text written l =
    let l' = record l { fd = opened } in
    if is_stderr l.fd
    then some l
    else (if is_negative opened then log_stderr_safe text written l' else some l')

unfoldable pub log_level_up : (text : ℤ) (written : Bool) → Logger → Option Logger
log_level_up text written l =
    if lt_int l.level log_pverb
    then log_safe text written (record l { level = succ_int l.level })
    else some l

unfoldable pub log_level_down : (text : ℤ) (written : Bool) → Logger → Option Logger
log_level_down text written l =
    if lt_int log_emerg l.level
    then log_safe text written (record l { level = pred_int l.level })
    else some l

unfoldable pub log_level_set : (level : ℤ) → Printed → Logger → Option (Bool × Logger)
log_level_set level io l = log false io (record l { level = clamp level })

unfoldable pub log_loggable : (level : ℤ) → Logger → Bool
log_loggable level l = not (lt_int l.level level)
