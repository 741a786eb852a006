-- ===== src/Log/Hexdump.antt =====
-- `_log_hexdump`: how far it fills its buffer.
pub mod Length
use timeseries_database.Base.{
  ℕ, zero, suc, ◌+◌, ◌-◌, ◌*◌, min, Bool, true, false, ◌||◌, not, Option, none, some, ◌==◌, ltb,
  if◌then◌else◌,
}
use timeseries_database.Base.Int.{ℤ, pos, negsuc}
use timeseries_database.Log.{Logger, log_max_len, append, is_negative, count_error}

abbrev pub dump_size : ℕ
dump_size = 8 * log_max_len

-- `str` has two spaces for the eighth byte of a line, and one for the others.
abbrev pub str_length : ℕ → ℕ
str_length i = if i == 7 then 2 else 1

-- The two loops over the columns, from column `i` with `left` to go: "%02x%s" of a byte and "  %s" of
-- a missing one print the same number of characters.
unfoldable pub hex_columns : (left i len : ℕ) → Option ℕ
hex_columns zero i len = some len
hex_columns (suc left) i len = elim (append dump_size len (pos (2 + str_length i))) [
  | none ↦ none
  | some len' ↦ hex_columns left (suc i) len'
]

-- The loop over the characters of a line.
unfoldable pub char_columns : (count len : ℕ) → Option ℕ
char_columns zero len = some len
char_columns (suc count) len = elim (append dump_size len (pos 1)) [
  | none ↦ none
  | some len' ↦ char_columns count len'
]

-- A round of the loop: the offset, the bytes, "  |", the characters and "|\n".
unfoldable pub dump_line : (datalen len : ℕ) → Option ℕ
dump_line datalen len = elim (append dump_size len (pos 10)) [
  | none ↦ none
  | some len ↦ elim (hex_columns 16 0 len) [
    | none ↦ none
    | some len ↦ elim (append dump_size len (pos 3)) [
      | none ↦ none
      | some len ↦ elim (char_columns (min datalen 16) len) [
        | none ↦ none
        | some len ↦ append dump_size len (pos 2)
      ]
    ]
  ]
]

-- The loop; `none` is also a lack of fuel.
unfoldable pub dump_loop : (fuel datalen len : ℕ) → Option ℕ
dump_loop zero datalen len = none
dump_loop (suc fuel) datalen len =
    if (datalen == 0) || not (ltb len (dump_size - 1))
    then some len
    else elim (dump_line datalen len) [
      | none ↦ none
      | some len' ↦ dump_loop fuel (datalen - 16) len'
    ]

-- `written` and `ended` are whether the two writes succeed; the second is made when the buffer is
-- full.
unfoldable pub log_hexdump : (fuel datalen : ℕ) (written ended : Bool) → Logger → Option Logger
log_hexdump fuel datalen written ended l =
    if is_negative l.fd then some l else elim (dump_loop fuel datalen 0) [
      | none ↦ none
      | some len ↦
          let l' = count_error written l in
          some (if ltb len (dump_size - 1) then l' else count_error ended l')
    ]
