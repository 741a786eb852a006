-- ===== src/Log/Hexdump/Length.antt =====
-- The length of a dump.
use timeseries_database.Base.{
  ℕ, zero, suc, ◌+◌, ◌-◌, ◌*◌, ◌/◌, ◌<◌, ◌≡◌, ap, ◌∙◌, min, true, false, some, ltb, ◌==◌, arith,
  inl, inr, Bool-cases, ◌||◌, not,
}
use timeseries_database.Base.Int.{pos}
use timeseries_database.Log.{append}
use timeseries_database.Log.Buffers.{append-min}
use timeseries_database.Log.Hexdump.{str_length, hex_columns, char_columns, dump_line, dump_loop}

-- The length of a buffer that `n` more characters are printed to.
abbrev cut : ℕ → ℕ
cut n = min 2047 n

append-cut : (n k : ℕ) → append 2048 (cut n) (pos k) ≡ some (cut (n + k))
append-cut n k = append-min 2048 (cut n) k (omega arith) ∙ ap some (omega arith)

-- The width of the columns from `i` on.
abbrev width : (left i : ℕ) → ℕ
width zero i = 0
width (suc left) i = 2 + str_length i + width left (suc i)

hex_columns-cut : (left i n : ℕ) → hex_columns left i (cut n) ≡ some (cut (n + width left i))
unfolding hex_columns
hex_columns-cut zero i n = ap (λ k. some (cut k)) (omega arith)
hex_columns-cut (suc left) i n =
    rw (hex_columns, append-cut n (2 + str_length i))
      (hex_columns-cut left (suc i) (n + (2 + str_length i)) ∙ ap (λ k. some (cut k)) (omega arith))

char_columns-cut : (count n : ℕ) → char_columns count (cut n) ≡ some (cut (n + count))
unfolding char_columns
char_columns-cut zero n = ap (λ k. some (cut k)) (omega arith)
char_columns-cut (suc count) n =
    rw (char_columns, append-cut n 1)
      (char_columns-cut count (n + 1) ∙ ap (λ k. some (cut k)) (omega arith))

dump_line-cut : (datalen n : ℕ) → dump_line datalen (cut n) ≡ some (cut (n + (64 + min datalen 16)))
unfolding dump_line
dump_line-cut datalen n =
    rw
      (
        dump_line,
        append-cut n 10,
        hex_columns-cut 16 0 (n + 10),
        append-cut (n + 10 + 49) 3,
        char_columns-cut (min datalen 16) (n + 10 + 49 + 3),
        append-cut (n + 10 + 49 + 3 + min datalen 16) 2,
      )
      (ap (λ k. some (cut k)) (omega arith))

cut-stops :
    (datalen n : ℕ)
    → ((datalen == 0) || not (ltb (cut n) 2047)) ≡ true
    → cut n ≡ cut (n + (64 * ((datalen + 15) / 16) + datalen))
cut-stops datalen n stops = ground arith

goes-positive : (datalen n : ℕ) → ((datalen == 0) || not (ltb (cut n) 2047)) ≡ false → 0 < datalen
goes-positive datalen n goes = ground arith

round-length :
    (datalen n : ℕ)
    → 0 < datalen
    → n + (64 + min datalen 16) + (64 * ((datalen - 16 + 15) / 16) + (datalen - 16))
      ≡ n + (64 * ((datalen + 15) / 16) + datalen)
round-length datalen n positive = omega arith

dump_loop-cut :
    (fuel datalen n : ℕ)
    → datalen < fuel
    → dump_loop fuel datalen (cut n) ≡ some (cut (n + (64 * ((datalen + 15) / 16) + datalen)))
unfolding dump_loop
dump_loop-cut (suc fuel) datalen n enough =
    elim (Bool-cases ((datalen == 0) || not (ltb (cut n) 2047))) [
      | inl stops ↦ rw (dump_loop, stops) (ap some (cut-stops datalen n stops))
      | inr goes ↦
          rw (dump_loop, goes, dump_line-cut datalen n)
            (dump_loop-cut fuel (datalen - 16) (n + (64 + min datalen 16))
                (omega (arith, goes-positive datalen n goes))
              ∙ ap (λ k. some (cut k)) (round-length datalen n (goes-positive datalen n goes)))
    ]
dump_loop-cut zero datalen n enough = absurd (omega arith)

-- With more fuel than bytes the loop of _log_hexdump ends within its buffer: it has printed 64
-- characters for each line begun and one for each byte, cut to one less than the buffer's size.
pub dump_loop-min :
    (fuel datalen : ℕ)
    → datalen < fuel
    → dump_loop fuel datalen 0 ≡ some (min 2047 (64 * ((datalen + 15) / 16) + datalen))
dump_loop-min fuel datalen enough =
    ap (dump_loop fuel datalen) start
    ∙ dump_loop-cut fuel datalen 0 enough
    ∙ ap (λ k. some (cut k)) (omega arith)
  where
    start : 0 ≡ cut 0
    start = omega arith
