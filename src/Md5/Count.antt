-- ===== src/Md5/Count.antt =====
-- What the counters of a context stand for.
use timeseries_database.Base.{
  ℕ, ◌+◌, ◌-◌, ◌*◌, ◌%◌, ◌^◌, ◌<◌, ◌≡◌, List, length, arith, ltb, ◌==◌, bit_and, Bool-cases, u64,
  inl, inr, refl, sym, subst, leb, take, drop,
}
use timeseries_database.Base.Masks.{and_mask}
use timeseries_database.Md5.{Md5Context, count, md5_update, take_blocks, copy_to, body_block}

-- The number of bytes that a context has taken, which wraps around at 2^61.
abbrev pub total : Md5Context → ℕ
total ctx = ctx.lo + ctx.hi * 2 ^ 29

count_lem :
    (size : ℕ) (ctx : Md5Context)
    → ctx.lo < 2 ^ 29
    → ctx.hi < 2 ^ 32
    → size < 2 ^ 63
    → (total (count size ctx) ≡ (total ctx + size) % 2 ^ 61)
      × ((count size ctx).lo < 2 ^ 29)
      × ((count size ctx).hi < 2 ^ 32)
unfolding count
count_lem size ctx lo hi small =
    let mask = and_mask 29 (u64 (ctx.lo + size)) in
    let sum : u64 (ctx.lo + size) ≡ ctx.lo + size = omega arith in
    (ground (arith, mask), ground (arith, mask), ground (arith, mask))

-- What `md5_update` does with the data leaves the counters alone.
abbrev counters : Md5Context → ℕ × ℕ
counters ctx = (ctx.lo, ctx.hi)

take_blocks-counters :
    (ptr : List ℕ) (ctx : Md5Context) → counters (take_blocks ptr ctx) ≡ counters ctx
unfolding take_blocks
take_blocks-counters ptr ctx = elim (Bool-cases (leb 64 (length ptr))) [
  | inl e ↦ rw e refl
  | inr e ↦ rw e refl
]

md5_update-counters :
    (ptr : List ℕ) (ctx : Md5Context)
    → counters (md5_update ptr ctx) ≡ counters (count (length ptr) ctx)
unfolding md5_update
md5_update-counters ptr ctx =
    let used = bit_and ctx.lo 0x3f in
    let after = count (length ptr) ctx in
    let buffer = copy_to used (take (64 - used) ptr) ctx.buffer in
    elim (Bool-cases (used == 0)) [
      | inl e ↦ rw e (take_blocks-counters ptr after)
      | inr e ↦ elim (Bool-cases (ltb (length ptr) (64 - used))) [
        | inl e' ↦ rw (e, e') refl
        | inr e' ↦
            rw (e, e')
              (take_blocks-counters (drop (64 - used) ptr)
                (record after { buffer = buffer; state = body_block buffer ctx.state }))
      ]
    ]

-- Taking a piece of a message adds its length to the number of bytes that the counters stand for,
-- modulo 2^61, and the counters keep to their 29 and 32 bits, if they did and the piece is shorter
-- than 2^63 bytes.
pub md5_update-total :
    (ptr : List ℕ) (ctx : Md5Context)
    → ctx.lo < 2 ^ 29
    → ctx.hi < 2 ^ 32
    → length ptr < 2 ^ 63
    → let after = md5_update ptr ctx in
      (total after ≡ (total ctx + length ptr) % 2 ^ 61) × (after.lo < 2 ^ 29) × (after.hi < 2 ^ 32)
md5_update-total ptr ctx lo hi small =
    subst
      (λ n.
        (n.0 + n.1 * 2 ^ 29 ≡ (total ctx + length ptr) % 2 ^ 61) × (n.0 < 2 ^ 29) × (n.1 < 2 ^ 32))
      (sym (md5_update-counters ptr ctx)) (count_lem (length ptr) ctx lo hi small)
