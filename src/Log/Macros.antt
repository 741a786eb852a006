-- ===== src/Log/Macros.antt =====
-- The macros of log.h that log a message, in a build without _DEBUG_LOG_MODE. The result says
-- whether the program aborts.
use timeseries_database.Base.{Bool, true, false, Option, some, if◌then◌else◌}
use timeseries_database.Base.Int.{ℤ, pos}
use timeseries_database.Log.{Logger, Printed, log_emerg, log}
use timeseries_database.Log.Levels.{log_loggable}

abbrev pub log_alert : ℤ
log_alert = pos 1

abbrev pub level_warn : ℤ
level_warn = pos 4

-- The test and the call that the macros share.
abbrev pub log_at : (level : ℤ) (panic : Bool) → Printed → Logger → Option (Bool × Logger)
log_at level panic io l = if log_loggable level l then log panic io l else some (false, l)

unfoldable pub log_debug : (level : ℤ) → Printed → Logger → Option (Bool × Logger)
log_debug level io l = some (false, l)

unfoldable pub log_info : (level : ℤ) → Printed → Logger → Option (Bool × Logger)
log_info level = log_at level false

unfoldable pub loga : Printed → Logger → Option (Bool × Logger)
loga = log false

unfoldable pub log_error : Printed → Logger → Option (Bool × Logger)
log_error = log_at log_alert false

unfoldable pub log_warn : Printed → Logger → Option (Bool × Logger)
log_warn = log_at level_warn false

unfoldable pub log_panic : Printed → Logger → Option (Bool × Logger)
log_panic = log_at log_emerg true
