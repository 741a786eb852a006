-- ===== src/Md5/Padding.antt =====
-- The digest of RFC 1321: a message is padded, then compressed as a whole.
use timeseries_database.Base.{
  ℕ, ◌+◌, ◌-◌, ◌*◌, ◌/◌, ◌%◌, ◌^◌, ◌≡◌, ap, ◌∙◌, List, [], ◌∷◌, ◌++◌, length, arith, append_assoc,
  length-append, replicate,
}
use timeseries_database.Md5.{Words, body, digest, word_bytes}
use timeseries_database.Md5.Blocks.{body-append}
use timeseries_database.Md5.Pieces.{initial, compress, Holds}

-- The number of bits of a message, in eight bytes.
abbrev pub bits : ℕ → List ℕ
bits size = word_bytes (size * 8 % 2 ^ 32) ++ word_bytes (size * 8 / 2 ^ 32 % 2 ^ 32)

-- A one bit, zeros up to 56 bytes of a block, and the number of bits.
abbrev pub padded : List ℕ → List ℕ
padded message =
    message
    ++ (0x80 ∷ [])
    ++ replicate ((119 - length message % 64) % 64) 0
    ++ bits (length message)

abbrev pub digest_of : List ℕ → List ℕ
digest_of message = digest ((body (length (padded message) / 64) (padded message) initial).1)

pub digest_of_lem :
    (message whole end : List ℕ) (blocks m : ℕ)
    → padded message ≡ whole ++ end
    → length whole ≡ blocks * 64
    → length end ≡ m * 64
    → digest_of message ≡ digest ((body m end (compress blocks whole)).1)
digest_of_lem message whole end blocks m e len end_len =
    let number : length (whole ++ end) / 64 ≡ blocks + m =
      omega (arith, length-append whole end, len, end_len) in
    ap (λ t. digest ((body (length t / 64) t initial).1)) e
    ∙ ap (λ k. digest ((body k (whole ++ end) initial).1)) number
    ∙ ap (λ p. digest (p.1)) (body-append blocks m whole end initial len)

-- The buffer with the first byte of the padding, and what is left of it.
abbrev pub marked : List ℕ → List ℕ
marked rest = rest ++ (0x80 ∷ [])

pub length-marked : (rest : List ℕ) → length (marked rest) ≡ length rest + 1
length-marked rest = length-append rest (0x80 ∷ [])

pub padded_lem :
    (message : List ℕ) {state : Words} {buffer : List ℕ} (hs : Holds message state buffer)
    → (zeros : ℕ) → (119 - length message % 64) % 64 ≡ zeros
    → padded message ≡ hs.whole ++ (marked hs.rest ++ replicate zeros 0 ++ bits (length message))
padded_lem message hs zeros e =
    let mark : List ℕ = 0x80 ∷ [] in
    let number = bits (length message) in
    ap (λ k. message ++ mark ++ replicate k 0 ++ number) e
    ∙ ap (λ t. t ++ mark ++ replicate zeros 0 ++ number) hs.splits
    ∙ ap (λ t. t ++ replicate zeros 0 ++ number) (append_assoc hs.whole hs.rest mark)
    ∙ ap (λ t. t ++ number) (append_assoc hs.whole (marked hs.rest) (replicate zeros 0))
    ∙ append_assoc hs.whole (marked hs.rest ++ replicate zeros 0) number

pub length-message :
    (message : List ℕ) {state : Words} {buffer : List ℕ} (hs : Holds message state buffer)
    → length message % 64 ≡ length hs.rest
length-message message hs =
    omega (arith, ap length hs.splits, length-append hs.whole hs.rest, hs.whole_length, hs.rest_lt)
