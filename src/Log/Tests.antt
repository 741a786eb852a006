-- ===== src/Log/Tests.antt =====
-- The theorems on the log at values.
use timeseries_database.Base.{ℕ, ◌+◌, ◌*◌, ◌/◌, ◌≤◌, ◌≡◌, refl, min, true, false, none, some, arith}
use timeseries_database.Base.Int.{pos, negsuc}
use timeseries_database.Log.Macros.{log_panic}
use timeseries_database.Log.{
  Printed, log, append, scnprintf, vscnprintf, Logger, log_max_len, log_emerg, log_length,
  safe_length, log_safe, log_stderr_safe, end_line, count_error,
}
use timeseries_database.Log.Levels.{log_init, log_level_down, log_loggable}
use timeseries_database.Log.Levels.Range.{
  IsReachable, init, next, level_down, IsLevel, log_level-IsLevel,
}
use timeseries_database.Log.Buffers.{log_length-le}
use timeseries_database.Log.Hexdump.{dump_loop}
use timeseries_database.Log.Hexdump.Length.{dump_loop-min}

abbrev logger : ℕ → Logger
logger n = record { level = pos n; fd = pos 2; nerror = 0 }

-- The level 99 is set to 11, and then taken down.
lowered : IsReachable (logger 10)
unfolding log_init log_level_down log_safe log_stderr_safe safe_length end_line count_error
lowered =
    next (logger 11) (init (logger 0) (pos 99) false (pos 0) (pos 0) true true refl)
      (level_down (pos 20) true refl)

log_level-IsLevel_example : IsLevel (pos 10) × (log_loggable log_emerg (logger 10) ≡ true)
log_level-IsLevel_example = log_level-IsLevel (logger 10) lowered

log_length-le_example :
    (n : ℕ) × (log_length 20 (pos 3) (pos 15) (pos 1000) ≡ some n) × (n ≤ log_max_len)
log_length-le_example = log_length-le 20 (pos 3) (pos 15) (pos 1000) (omega arith)

-- A text of 230 characters is too long.
-- A text of 230 characters is too long for the buffer, one of 229 is not.
safe_length_long : (safe_length (pos 230) ≡ none) × (safe_length (pos 229) ≡ some 256)
unfolding safe_length end_line
safe_length_long = (refl, refl)

dump_loop-min_example : dump_loop 21 20 0 ≡ some (min 2047 (64 * ((20 + 15) / 16) + 20))
dump_loop-min_example = dump_loop-min 21 20 (omega arith)

abbrev message : Printed
message = record { date = 20; millis = pos 3; place = pos 15; text = pos 9; written = true }

-- A panic aborts, but for a log whose file could not be opened.
log_panic-stderr : log_panic message (logger 5) ≡ some (true, logger 5)
unfolding log_panic log_loggable log log_length append scnprintf vscnprintf end_line count_error
log_panic-stderr = refl

log_panic-no_file :
    log_panic message (record (logger 5) { fd = negsuc 0 })
    ≡ some (false, record (logger 5) { fd = negsuc 0 })
unfolding log_panic log_loggable log
log_panic-no_file = refl
