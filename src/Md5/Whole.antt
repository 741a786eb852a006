-- ===== src/Md5/Whole.antt =====
-- The digest of a message that comes in pieces.
use timeseries_database.Base.{
  ℕ, ◌^◌, ◌<◌, ◌≡◌, sym, subst, List, [], ◌∷◌, ◌++◌, length, append_assoc, append-nil,
}
use timeseries_database.Md5.{Md5Context, md5_init, md5_update, md5_final}
use timeseries_database.Md5.Pieces.{Takes, md5_init-Takes}
use timeseries_database.Md5.Update.{md5_update-Takes}
use timeseries_database.Md5.Padding.{digest_of}
use timeseries_database.Md5.Final.{md5_final-digest_of}

-- A message that comes in pieces.
abbrev pub concat : List (List ℕ) → List ℕ
concat [] = []
concat (piece ∷ pieces) = piece ++ concat pieces

abbrev pub update_each : List (List ℕ) → Md5Context → Md5Context
update_each [] ctx = ctx
update_each (piece ∷ pieces) ctx = update_each pieces (md5_update piece ctx)

abbrev pub EachFits : List (List ℕ) → Type 0
EachFits [] = Unit
EachFits (piece ∷ pieces) = (length piece < 2 ^ 63) × EachFits pieces

update_each-Takes :
    (pieces : List (List ℕ)) (message : List ℕ) (ctx : Md5Context)
    → Takes message ctx
    → EachFits pieces
    → Takes (message ++ concat pieces) (update_each pieces ctx)
update_each-Takes [] message ctx takes fits =
    subst (λ t. Takes t ctx) (sym (append-nil message)) takes
update_each-Takes (piece ∷ pieces) message ctx takes fits =
    subst (λ t. Takes t (update_each pieces (md5_update piece ctx)))
      (append_assoc message piece (concat pieces))
      (update_each-Takes pieces (message ++ piece) (md5_update piece ctx)
        (md5_update-Takes message piece ctx takes (fits.0)) (fits.1))

-- A message taken by md5_update in any pieces, after md5_init on a context with its 64 bytes of
-- buffer, has as its digest what the compression of the whole message, padded by RFC 1321, gives.
-- Each piece is shorter than 2^63 bytes.
pub md5_final-update_each :
    (pieces : List (List ℕ)) (ctx : Md5Context)
    → length ctx.buffer ≡ 64
    → EachFits pieces
    → md5_final (update_each pieces (md5_init ctx)) ≡ digest_of (concat pieces)
md5_final-update_each pieces ctx size fits =
    md5_final-digest_of (concat pieces) (update_each pieces (md5_init ctx))
      (update_each-Takes pieces [] (md5_init ctx) (md5_init-Takes ctx size) fits)
