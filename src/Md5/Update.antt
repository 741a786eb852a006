-- ===== src/Md5/Update.antt =====
-- md5_update case by case, on a context that has taken a message.
use timeseries_database.Base.{
  ℕ, ◌+◌, ◌-◌, ◌*◌, ◌^◌, ◌<◌, ◌≤◌, ◌≡◌, sym, subst, ap, ◌∙◌, List, ◌++◌, length, take, drop, arith,
  ltb, ◌==◌, Bool-cases, inl, inr, append_assoc, length-append, append-nil, bit_and,
}
use timeseries_database.Base.Pieces.{
  append-take-drop, length-take, length-drop, take-append, drop-append, drop-all, length-zero,
}
use timeseries_database.Md5.{
  Md5Context, Words, copy_to, count, take_blocks, md5_update, body, body_block,
}
use timeseries_database.Base.Masks.{and_mask}
use timeseries_database.Md5.Count.{md5_update-total}
use timeseries_database.Md5.Pieces.{compress, Holds, Takes, compress-append, take_blocks-Holds}

buffer_length :
    {message : List ℕ} {state : Words} {buffer : List ℕ}
    → Holds message state buffer
    → length buffer ≡ 64
buffer_length hs = omega (arith, ap length hs.kept, length-append hs.rest hs.left, hs.room)

pub used_lem :
    (message : List ℕ) (ctx : Md5Context) (takes : Takes message ctx)
    → bit_and ctx.lo 0x3f ≡ length takes.holds.rest
used_lem message ctx takes =
    let hs = takes.holds in
    omega (
      arith,
      and_mask 6 ctx.lo,
      takes.counted,
      takes.lo_lt,
      hs.rest_lt,
      hs.whole_length,
      length-append hs.whole hs.rest,
      ap length hs.splits,
    )

pub copy_to-rest :
    (rest left xs : List ℕ)
    → copy_to (length rest) xs (rest ++ left) ≡ rest ++ xs ++ drop (length xs) left
copy_to-rest rest left xs =
    ap (λ t. t ++ xs ++ drop (length rest + length xs) (rest ++ left)) (take-append rest left)
    ∙ ap (λ t. rest ++ xs ++ t) (drop-append rest left (length xs))

-- Nothing was left in the buffer.
update_whole :
    (message ptr : List ℕ) (ctx : Md5Context) (hs : Holds message ctx.state ctx.buffer)
    → length hs.rest ≡ 0
    → let after = take_blocks ptr (count (length ptr) ctx) in
      Holds (message ++ ptr) after.state after.buffer
unfolding count
update_whole message ptr ctx hs none_left =
    let msg : hs.whole ≡ message =
      sym (append-nil hs.whole)
      ∙ ap (λ t. hs.whole ++ t) (sym (length-zero hs.rest none_left))
      ∙ sym hs.splits in
    let after = take_blocks ptr (count (length ptr) ctx) in
    subst (λ t. Holds (t ++ ptr) after.state after.buffer) msg
      (take_blocks-Holds ptr hs.whole hs.blocks (count (length ptr) ctx) hs.whole_length
        hs.compressed (buffer_length hs))

-- The data does not fill the buffer.
update_within :
    (message ptr : List ℕ) (ctx : Md5Context) (hs : Holds message ctx.state ctx.buffer)
    → length hs.rest + length ptr < 64
    → Holds (message ++ ptr) ctx.state (copy_to (length hs.rest) ptr ctx.buffer)
update_within message ptr ctx hs lt = record {
  whole = hs.whole;
  rest = hs.rest ++ ptr;
  left = drop (length ptr) hs.left;
  blocks = hs.blocks;
  splits = ap (λ t. t ++ ptr) hs.splits ∙ append_assoc hs.whole hs.rest ptr;
  whole_length = hs.whole_length;
  compressed = hs.compressed;
  kept = ap (λ t. copy_to (length hs.rest) ptr t) hs.kept ∙ copy_to-rest hs.rest hs.left ptr;
  rest_lt = omega (arith, length-append hs.rest ptr);
  room = omega (arith, length-append hs.rest ptr, length-drop (length ptr) hs.left, hs.room);
}

body_one :
    (filled block : List ℕ) (blocks : ℕ) (whole : List ℕ) (state : Words)
    → filled ≡ block
    → state ≡ compress blocks whole
    → length whole ≡ blocks * 64
    → body_block filled state ≡ compress (blocks + 1) (whole ++ block)
unfolding body
body_one filled block blocks whole state e compressed len =
    ap (λ t. body_block t state) e
    ∙ ap (λ s. body_block block s) compressed
    ∙ sym (compress-append blocks 1 whole block len)

-- What md5_update does with data that fills a buffer of which `used` bytes are taken.
abbrev HoldsFilled : (message ptr : List ℕ) → Md5Context → (used : ℕ) → Type 0
HoldsFilled message ptr ctx used =
    let free = 64 - used in
    let filled = copy_to used (take free ptr) ctx.buffer in
    let after =
      take_blocks (drop free ptr) (record (count (length ptr) ctx) {
        buffer = filled;
        state = body_block filled ctx.state;
      }) in
    Holds (message ++ ptr) after.state after.buffer

-- The data fills the buffer, which is compressed before the rest of the data.
update_filled :
    (message ptr : List ℕ) (ctx : Md5Context) (hs : Holds message ctx.state ctx.buffer)
    → 64 ≤ length hs.rest + length ptr
    → HoldsFilled message ptr ctx (length hs.rest)
unfolding count
update_filled message ptr ctx hs ge =
    let free = 64 - length hs.rest in
    let front = take free ptr in
    let filled = copy_to (length hs.rest) front ctx.buffer in
    let block = hs.rest ++ front in
    let front_length : length front ≡ free = length-take free ptr (omega arith) in
    let block_length : length block ≡ 64 =
      omega (arith, length-append hs.rest front, front_length, hs.rest_lt) in
    let filled_eq : filled ≡ block =
      ap (λ t. copy_to (length hs.rest) front t) hs.kept
      ∙ copy_to-rest hs.rest hs.left front
      ∙ ap (λ t. hs.rest ++ front ++ t)
          (drop-all (length front) hs.left (omega (arith, hs.room, front_length)))
      ∙ append-nil block in
    let state : body_block filled ctx.state ≡ compress (hs.blocks + 1) (hs.whole ++ block) =
      body_one filled block hs.blocks hs.whole ctx.state filled_eq hs.compressed hs.whole_length in
    let msg : (hs.whole ++ block) ++ drop free ptr ≡ message ++ ptr =
      append_assoc hs.whole block (drop free ptr)
      ∙ ap (λ t. hs.whole ++ t)
          (append_assoc hs.rest front (drop free ptr)
            ∙ ap (λ t. hs.rest ++ t) (append-take-drop free ptr))
      ∙ sym (append_assoc hs.whole hs.rest ptr)
      ∙ ap (λ t. t ++ ptr) (sym hs.splits) in
    let ctx' = record (count (length ptr) ctx) {
      buffer = filled;
      state = body_block filled ctx.state;
    } in
    let after = take_blocks (drop free ptr) ctx' in
    subst (λ t. Holds t after.state after.buffer) msg
      (take_blocks-Holds (drop free ptr) (hs.whole ++ block) (hs.blocks + 1) ctx'
        (omega (arith, length-append hs.whole block, block_length, hs.whole_length)) state
        (omega (arith, ap length filled_eq, block_length)))

md5_update-Holds :
    (message ptr : List ℕ) (ctx : Md5Context)
    → Takes message ctx
    → let after = md5_update ptr ctx in Holds (message ++ ptr) after.state after.buffer
unfolding md5_update count
md5_update-Holds message ptr ctx takes =
    let hs = takes.holds in
    let used = bit_and ctx.lo 0x3f in
    let used_eq = used_lem message ctx takes in
    elim (Bool-cases (used == 0)) [
      | inl e ↦ rw e (update_whole message ptr ctx hs (ground (arith, e, used_eq)))
      | inr e ↦ elim (Bool-cases (ltb (length ptr) (64 - used))) [
        | inl e' ↦
            rw (e, e')
              (subst (λ u. Holds (message ++ ptr) ctx.state (copy_to u ptr ctx.buffer))
                (sym used_eq) (update_within message ptr ctx hs (ground (arith, e', used_eq))))
        | inr e' ↦
            rw (e, e')
              (subst (HoldsFilled message ptr ctx) (sym used_eq)
                (update_filled message ptr ctx hs (ground (arith, e', used_eq))))
      ]
    ]

-- After a message, taking a piece shorter than 2^63 bytes leaves a context that has taken the
-- message and the piece: the state is that of the message's whole blocks, the buffer starts with
-- the rest of it, and the counters stand for its length modulo 2^61.
pub md5_update-Takes :
    (message ptr : List ℕ) (ctx : Md5Context)
    → Takes message ctx
    → length ptr < 2 ^ 63
    → Takes (message ++ ptr) (md5_update ptr ctx)
md5_update-Takes message ptr ctx takes small =
    let count = md5_update-total ptr ctx takes.lo_lt takes.hi_lt small in
    record {
      holds = md5_update-Holds message ptr ctx takes;
      counted = omega (arith, count.0, takes.counted, length-append message ptr);
      lo_lt = count.1;
      hi_lt = count.2;
    }
