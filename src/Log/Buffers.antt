-- ===== src/Log/Buffers.antt =====
-- What the functions of log.c write stays within their buffers, or does not.
use timeseries_database.Base.{ℕ, ◌+◌, ◌-◌, ◌≤◌, ◌<◌, ◌≡◌, refl, min, Option, some, lt→ltb, arith}
use timeseries_database.Base.Int.{ℤ, pos, negsuc}
use timeseries_database.Log.{log_max_len, vscnprintf, scnprintf, append, end_line, log_length}

-- With room for at least one byte, a text is cut to leave a byte.
pub append-min :
    (size len n : ℕ) → len < size → append size len (pos n) ≡ some (min (size - 1) (len + n))
unfolding append scnprintf vscnprintf
append-min size len n room = ground arith

-- A result below a bound.
abbrev pub Below : ℕ → Option ℕ → Type 0
Below bound r = (n : ℕ) × (r ≡ some n) × (n < bound)

append-Below : (size len : ℕ) (printed : ℤ) → len < size → Below size (append size len printed)
unfolding append scnprintf vscnprintf
append-Below size len (pos n) room =
    (min (size - 1) (len + n), append-min size len n room, omega arith)
append-Below size len (negsuc n) room = (len + 0, refl, omega arith)

-- _log never writes outside its buffer, and hands write at most LOG_MAX_LEN bytes, however long
-- the texts that it formats and whether they can be formatted or not; strftime returns fewer than
-- 255 bytes.
pub log_length-le :
    (date : ℕ) (millis place text : ℤ)
    → date < 255
    → (n : ℕ) × (log_length date millis place text ≡ some n) × (n ≤ log_max_len)
unfolding log_length end_line
log_length-le date millis place text small =
    let (len, e, room) = append-Below 256 (1 + date) millis (omega arith) in
    let (len', e', room') = append-Below 256 len place room in
    let (len'', e'', room'') = append-Below 256 len' text room' in
    (len'' + 1, rw (log_length, e, e', e'', end_line, lt→ltb len'' 256 room'') refl, omega arith)
