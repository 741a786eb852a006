-- ===== src/Log.antt =====
-- log.c: the level, and how much of its buffers each function of the log fills. What the calls of
-- the C library return is an argument, and a write outside a buffer is `none`.
pub mod Levels
pub mod Macros
pub mod Hexdump
pub mod Buffers
mod Tests
use timeseries_database.Base.{
  ℕ, zero, suc, ◌+◌, ◌-◌, ◌*◌, min, Bool, true, false, Option, none, some, List, [], ◌∷◌, ◌==◌, ltb,
  leb, if◌then◌else◌,
}
pub use timeseries_database.Base.Int.{is_negative}
use timeseries_database.Base.Int.{ℤ, pos, negsuc}

abbrev pub log_emerg : ℤ
log_emerg = pos 0

abbrev pub log_pverb : ℤ
log_pverb = pos 11

abbrev pub log_max_len : ℕ
log_max_len = 256

-- `struct logger` without the name of its file.
pub record Logger : Type 0 where
  pub level : ℤ
  pub fd : ℤ
  pub nerror : ℕ

abbrev pub lt_int : ℤ → ℤ → Bool
lt_int (pos m) (pos n) = ltb m n
lt_int (pos m) (negsuc n) = false
lt_int (negsuc m) (pos n) = true
lt_int (negsuc m) (negsuc n) = ltb n m

abbrev pub stderr_fileno : ℤ
stderr_fileno = pos 2

-- `vscnprintf` at what `vsnprintf` returns. A size of 0 makes the result -1, here `none`.
unfoldable pub vscnprintf : (size : ℕ) → (printed : ℤ) → Option ℕ
vscnprintf size (negsuc _) = some 0
vscnprintf size (pos n) =
    if n == 0
    then some 0
    else (if ltb n size then some n else (if size == 0 then none else some (size - 1)))

unfoldable pub scnprintf : (size : ℕ) → (printed : ℤ) → Option ℕ
scnprintf size printed = vscnprintf size printed

-- `len += scnprintf(buf + len, size - len, …)`.
unfoldable pub append : (size len : ℕ) → (printed : ℤ) → Option ℕ
append size len printed = elim (scnprintf (size - len) printed) [
  | none ↦ none
  | some n ↦ some (len + n)
]

-- `buf[len++] = '\n'`.
unfoldable pub end_line : (size len : ℕ) → Option ℕ
end_line size len = if ltb len size then some (len + 1) else none

-- The count of errors after a `write` that succeeds or fails.
unfoldable pub count_error : (written : Bool) → Logger → Logger
count_error written l = if written then l else record l { nerror = l.nerror + 1 }

-- How many bytes `_log` writes, at what `strftime` returns and at the three texts it formats.
unfoldable pub log_length : (date : ℕ) (millis place text : ℤ) → Option ℕ
log_length date millis place text = elim (append log_max_len (1 + date) millis) [
  | none ↦ none
  | some len ↦ elim (append log_max_len len place) [
    | none ↦ none
    | some len' ↦ elim (append log_max_len len' text) [
      | none ↦ none
      | some len'' ↦ end_line log_max_len len''
    ]
  ]
]

-- What a call prints, and whether its `write` succeeds.
pub record Printed : Type 0 where
  pub date : ℕ
  pub millis : ℤ
  pub place : ℤ
  pub text : ℤ
  pub written : Bool

-- `_log`, with whether it aborts.
unfoldable pub log : (panic : Bool) → Printed → Logger → Option (Bool × Logger)
log panic io l =
    if is_negative l.fd
    then some (false, l)
    else elim (log_length io.date io.millis io.place io.text) [
      | none ↦ none
      | some _ ↦ some (panic, count_error io.written l)
    ]

-- `_log_stderr` and how many bytes it writes.
unfoldable pub stderr_length : (text : ℤ) → Option ℕ
stderr_length text = elim (vscnprintf (4 * log_max_len) text) [
  | none ↦ none
  | some len ↦ end_line (4 * log_max_len) len
]

unfoldable pub log_stderr : (text : ℤ) (written : Bool) → Logger → Option Logger
log_stderr text written l = elim (stderr_length text) [
  | none ↦ none
  | some _ ↦ some (count_error written l)
]

-- The prefix has 26 characters; `vsnprintf` may return more than it wrote.
unfoldable pub safe_length : (text : ℤ) → Option ℕ
safe_length (pos n) = end_line log_max_len (26 + n)
safe_length (negsuc n) = if ltb n 26 then end_line log_max_len (26 - suc n) else none

-- `_log_stderr_safe` and `_log_safe`.
unfoldable pub log_stderr_safe : (text : ℤ) (written : Bool) → Logger → Option Logger
log_stderr_safe text written l = elim (safe_length text) [
  | none ↦ none
  | some _ ↦ some (count_error written l)
]

unfoldable pub log_safe : (text : ℤ) (written : Bool) → Logger → Option Logger
log_safe text written l = if is_negative l.fd then some l else log_stderr_safe text written l
