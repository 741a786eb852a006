-- ===== src/Md5/Signature.antt =====
-- md5_signature and hash_md5, whose calls MD5_Init, MD5_Update and MD5_Final no file defines: the
-- three functions are arguments.
use timeseries_database.Base.{
  ℕ, zero, suc, ◌+◌, ◌*◌, ◌/◌, ◌^◌, ◌<◌, ◌≡◌, ap, ◌∙◌, List, [], ◌∷◌, ◌++◌, length, get_or, arith,
  bit_and, bit_or, shl32, u8, ◌>>>◌, append-nil, drop,
}
use timeseries_database.Base.Masks.{and_mask, or_fields}
use timeseries_database.Md5.{
  Md5Context, Words, words, md5_init, md5_update, md5_final, digest, word_bytes, body, body_block,
  add_saved,
}
use timeseries_database.Md5.Pieces.{initial}
use timeseries_database.Md5.Padding.{padded, digest_of}
use timeseries_database.Md5.Whole.{md5_final-update_each}

-- What hash_md5 makes of the first four bytes.
abbrev pub joined : List ℕ → ℕ
joined results =
    bit_or
      (bit_or
        (bit_or (shl32 (bit_and (get_or results 3 0) 0xff) 24)
          (shl32 (bit_and (get_or results 2 0) 0xff) 16))
        (shl32 (bit_and (get_or results 1 0) 0xff) 8))
      (bit_and (get_or results 0 0) 0xff)

module _ {Context : Type 0} (init : Context → Context) (update : List ℕ → Context → Context)
    (final : Context → List ℕ) where
  unfoldable pub md5_signature : Context → List ℕ → List ℕ
  md5_signature my_md5 key = final (update key (init my_md5))

  unfoldable pub hash_md5 : Context → List ℕ → ℕ
  unfolding md5_signature
  hash_md5 my_md5 key = joined (md5_signature my_md5 key)

abbrev pub first_word : Words → ℕ
first_word (words a b c d) = a

add_saved-lt : (w saved : Words) → first_word (add_saved w saved) < 2 ^ 32
add_saved-lt (words a b c d) (words a' b' c' d') = omega arith

body_block-lt : (ptr : List ℕ) (w : Words) → first_word (body_block ptr w) < 2 ^ 32
unfolding body_block
body_block-lt ptr w = add_saved-lt _ w

body-lt :
    (blocks : ℕ) (ptr : List ℕ) (w : Words)
    → first_word w < 2 ^ 32
    → first_word ((body blocks ptr w).1) < 2 ^ 32
unfolding body
body-lt zero ptr w lt = lt
body-lt (suc blocks) ptr w lt =
    body-lt blocks (drop 64 ptr) (body_block ptr w) (body_block-lt ptr w)

joined_lem :
    (d c b a : ℕ) (results : List ℕ)
    → d < 256
    → c < 256
    → b < 256
    → a < 256
    → joined (a ∷ b ∷ c ∷ d ∷ results) ≡ d * 2 ^ 24 + c * 2 ^ 16 + b * 2 ^ 8 + a
joined_lem d c b a results hd hc hb ha =
    let byte3 : shl32 (bit_and d 0xff) 24 ≡ d * 2 ^ 24 = omega (arith, and_mask 8 d) in
    let byte2 : shl32 (bit_and c 0xff) 16 ≡ c * 2 ^ 16 = omega (arith, and_mask 8 c) in
    let byte1 : shl32 (bit_and b 0xff) 8 ≡ b * 2 ^ 8 = omega (arith, and_mask 8 b) in
    let byte0 : bit_and a 0xff ≡ a = omega (arith, and_mask 8 a) in
    let high : bit_or (d * 2 ^ 24) (c * 2 ^ 16) ≡ (d * 256 + c) * 2 ^ 16 =
      omega (arith, or_fields 24 d (c * 2 ^ 16) (omega arith)) in
    let middle : bit_or ((d * 256 + c) * 2 ^ 16) (b * 2 ^ 8) ≡ ((d * 256 + c) * 256 + b) * 2 ^ 8 =
      omega (arith, or_fields 16 (d * 256 + c) (b * 2 ^ 8) (omega arith)) in
    rw (byte3, byte2, byte1, byte0, high, middle)
      (omega (arith, or_fields 8 ((d * 256 + c) * 256 + b) a (omega arith)))

joined-digest : (w : Words) → first_word w < 2 ^ 32 → joined (digest w) ≡ first_word w
joined-digest (words a b c d) lt =
    joined_lem (u8 (a >>> 24)) (u8 (a >>> 16)) (u8 (a >>> 8)) (u8 a)
      (word_bytes b ++ word_bytes c ++ word_bytes d) (omega arith) (omega arith) (omega arith)
      (omega arith)
    ∙ omega arith

-- With md5_init, md5_update and md5_final for the functions that md5_signature calls, hash_md5 of
-- a key shorter than 2^63 bytes is the first word of the state after the compression of the padded
-- key.
pub hash_md5-first_word :
    (ctx : Md5Context) (key : List ℕ)
    → length ctx.buffer ≡ 64
    → length key < 2 ^ 63
    → hash_md5 md5_init md5_update md5_final ctx key
      ≡ first_word ((body (length (padded key) / 64) (padded key) initial).1)
unfolding hash_md5
hash_md5-first_word ctx key size small =
    let pieces = md5_final-update_each (key ∷ []) ctx size (small, tt) in
    let whole = append-nil key in
    ap joined (pieces ∙ ap digest_of whole)
    ∙ joined-digest ((body (length (padded key) / 64) (padded key) initial).1)
        (body-lt (length (padded key) / 64) (padded key) initial (omega arith))
