-- ===== src/Md5/Tests.antt =====
-- Digests of the test suite of RFC 1321, and the theorems at concrete contexts.
use timeseries_database.Base.{
  bit_or, bit_and, not32, ◌/◌, length, ℕ, List, ◌++◌, [], ◌∷◌, ◌≡◌, refl, replicate, arith,
}
use timeseries_database.Md5.{
  f_function, g_function, Md5Context, words, md5_init, md5_update, md5_final, body_block, run_steps,
  round1, round2, round3, round4, count, take_blocks, body,
}
use timeseries_database.Md5.Pieces.{Takes, initial}
use timeseries_database.Md5.Update.{md5_update-Takes}
use timeseries_database.Md5.Padding.{digest_of, padded}
use timeseries_database.Md5.Whole.{concat, update_each, md5_final-update_each}
use timeseries_database.Md5.Selection.{f_function-select}
use timeseries_database.Md5.Signature.{hash_md5, first_word, hash_md5-first_word}

abbrev fresh : Md5Context
fresh = record { lo = 9; hi = 9; state = words 9 9 9 9; buffer = replicate 64 9 }

-- The digest of no bytes.
md5_empty :
    md5_final (md5_update [] (md5_init fresh))
    ≡ 0xd4 ∷ 0x1d ∷ 0x8c ∷ 0xd9 ∷ 0x8f ∷ 0x00 ∷ 0xb2 ∷ 0x04 ∷ 0xe9 ∷ 0x80 ∷ 0x09 ∷ 0x98 ∷ 0xec
      ∷ 0xf8 ∷ 0x42 ∷ 0x7e ∷ []
unfolding md5_final md5_update md5_init body_block run_steps round1 round2 round3 round4 count
    take_blocks body
md5_empty = refl

-- A context that has taken 60 bytes.
abbrev sixty : Md5Context
sixty = record {
  lo = 60;
  hi = 0;
  state = words 0x67452301 0xefcdab89 0x98badcfe 0x10325476;
  buffer = replicate 64 7;
}

sixty-Takes : Takes (replicate 60 7) sixty
unfolding body
sixty-Takes = record {
  holds = record {
    whole = [];
    rest = replicate 60 7;
    left = replicate 4 7;
    blocks = 0;
    splits = refl;
    whole_length = refl;
    compressed = refl;
    kept = refl;
    rest_lt = omega arith;
    room = refl;
  };
  counted = refl;
  lo_lt = omega arith;
  hi_lt = omega arith;
}

-- The piece fills the buffer.
md5_update-Takes_example :
    Takes (replicate 60 7 ++ 1 ∷ 2 ∷ 3 ∷ 4 ∷ 5 ∷ []) (md5_update (1 ∷ 2 ∷ 3 ∷ 4 ∷ 5 ∷ []) sixty)
md5_update-Takes_example =
    md5_update-Takes (replicate 60 7) (1 ∷ 2 ∷ 3 ∷ 4 ∷ 5 ∷ []) sixty sixty-Takes (omega arith)

abbrev three_pieces : List (List ℕ)
three_pieces = replicate 60 1 ∷ [] ∷ replicate 70 2 ∷ []

md5_final-update_each_example :
    md5_final (update_each three_pieces (md5_init fresh)) ≡ digest_of (concat three_pieces)
md5_final-update_each_example =
    md5_final-update_each three_pieces fresh refl (omega arith, (omega arith, (omega arith, tt)))

f_function-select_example :
    (f_function 5 12 10 ≡ bit_or (bit_and 5 12) (bit_and (not32 5) 10))
    × (g_function 5 12 10 ≡ bit_or (bit_and 10 5) (bit_and (not32 10) 12))
f_function-select_example = f_function-select 5 12 10 (omega arith) (omega arith) (omega arith)

abbrev letters : List ℕ
letters = 97 ∷ 98 ∷ 99 ∷ []

hash_md5-first_word_example :
    hash_md5 md5_init md5_update md5_final fresh letters
    ≡ first_word ((body (length (padded letters) / 64) (padded letters) initial).1)
hash_md5-first_word_example = hash_md5-first_word fresh letters refl (omega arith)

-- `900150983cd24fb0...` is the digest of `abc`.
hash_md5-letters : hash_md5 md5_init md5_update md5_final fresh letters ≡ 0x98500190
unfolding hash_md5 md5_final md5_update md5_init body_block run_steps round1 round2 round3 round4
    count take_blocks body
hash_md5-letters = refl
