-- ===== src/Md5.antt =====
-- md5.c: the compression of blocks, and a context that takes a message in pieces.
mod Blocks
mod Selection
pub mod Count
pub mod Pieces
pub mod Update
pub mod Padding
pub mod Final
pub mod Whole
pub mod Signature
mod Tests
use timeseries_database.Base.{
  ℕ, zero, suc, ◌+◌, ◌-◌, ◌*◌, ◌/◌, ◌%◌, ◌^◌, Bool, List, [], ◌∷◌, ◌++◌, length, take, drop,
  replicate, get_or, bit_and, bit_or, bit_xor, ◌==◌, ltb, leb, if◌then◌else◌, u8, u32, u64, add32,
  shl32, not32, ◌>>>◌,
}

abbrev pub f_function : ℕ → ℕ → ℕ → ℕ
f_function x y z = bit_xor z (bit_and x (bit_xor y z))

abbrev pub g_function : ℕ → ℕ → ℕ → ℕ
g_function x y z = bit_xor y (bit_and z (bit_xor x y))

abbrev pub h_function : ℕ → ℕ → ℕ → ℕ
h_function x y z = bit_xor (bit_xor x y) z

abbrev pub i_function : ℕ → ℕ → ℕ → ℕ
i_function x y z = bit_xor y (bit_or x (not32 z))

-- The four words of the state, in the order in which a step takes them.
pub data Words : Type 0 where
  words : (a b c d : ℕ) → Words

-- `STEP`, which changes `a`; the next step takes the words one place on.
abbrev pub step : (f : ℕ → ℕ → ℕ → ℕ) → (x t s : ℕ) → Words → Words
step f x t s (words a b c d) =
    let a = add32 a (add32 (add32 (f b c d) x) t) in
    let a = bit_or (shl32 a s) (a >>> (32 - s)) in let a = add32 a b in words d a b c

-- `SET` and `GET`: the word at index `n` of a block, its bytes in little-endian order.
abbrev pub get : List ℕ → ℕ → ℕ
get ptr n =
    get_or ptr (n * 4) 0
    + get_or ptr (n * 4 + 1) 0 * 2 ^ 8
    + get_or ptr (n * 4 + 2) 0 * 2 ^ 16
    + get_or ptr (n * 4 + 3) 0 * 2 ^ 24

-- The steps of a round: the word, the constant and the rotation of each.
abbrev pub Steps : Type 0
Steps = List (ℕ × ℕ × ℕ)

unfoldable pub round1 : Steps
round1 =
    (0, 0xd76aa478, 7)
    ∷ (1, 0xe8c7b756, 12)
    ∷ (2, 0x242070db, 17)
    ∷ (3, 0xc1bdceee, 22)
    ∷ (4, 0xf57c0faf, 7)
    ∷ (5, 0x4787c62a, 12)
    ∷ (6, 0xa8304613, 17)
    ∷ (7, 0xfd469501, 22)
    ∷ (8, 0x698098d8, 7)
    ∷ (9, 0x8b44f7af, 12)
    ∷ (10, 0xffff5bb1, 17)
    ∷ (11, 0x895cd7be, 22)
    ∷ (12, 0x6b901122, 7)
    ∷ (13, 0xfd987193, 12)
    ∷ (14, 0xa679438e, 17)
    ∷ (15, 0x49b40821, 22)
    ∷ []

unfoldable pub round2 : Steps
round2 =
    (1, 0xf61e2562, 5)
    ∷ (6, 0xc040b340, 9)
    ∷ (11, 0x265e5a51, 14)
    ∷ (0, 0xe9b6c7aa, 20)
    ∷ (5, 0xd62f105d, 5)
    ∷ (10, 0x02441453, 9)
    ∷ (15, 0xd8a1e681, 14)
    ∷ (4, 0xe7d3fbc8, 20)
    ∷ (9, 0x21e1cde6, 5)
    ∷ (14, 0xc33707d6, 9)
    ∷ (3, 0xf4d50d87, 14)
    ∷ (8, 0x455a14ed, 20)
    ∷ (13, 0xa9e3e905, 5)
    ∷ (2, 0xfcefa3f8, 9)
    ∷ (7, 0x676f02d9, 14)
    ∷ (12, 0x8d2a4c8a, 20)
    ∷ []

unfoldable pub round3 : Steps
round3 =
    (5, 0xfffa3942, 4)
    ∷ (8, 0x8771f681, 11)
    ∷ (11, 0x6d9d6122, 16)
    ∷ (14, 0xfde5380c, 23)
    ∷ (1, 0xa4beea44, 4)
    ∷ (4, 0x4bdecfa9, 11)
    ∷ (7, 0xf6bb4b60, 16)
    ∷ (10, 0xbebfbc70, 23)
    ∷ (13, 0x289b7ec6, 4)
    ∷ (0, 0xeaa127fa, 11)
    ∷ (3, 0xd4ef3085, 16)
    ∷ (6, 0x04881d05, 23)
    ∷ (9, 0xd9d4d039, 4)
    ∷ (12, 0xe6db99e5, 11)
    ∷ (15, 0x1fa27cf8, 16)
    ∷ (2, 0xc4ac5665, 23)
    ∷ []

unfoldable pub round4 : Steps
round4 =
    (0, 0xf4292244, 6)
    ∷ (7, 0x432aff97, 10)
    ∷ (14, 0xab9423a7, 15)
    ∷ (5, 0xfc93a039, 21)
    ∷ (12, 0x655b59c3, 6)
    ∷ (3, 0x8f0ccc92, 10)
    ∷ (10, 0xffeff47d, 15)
    ∷ (1, 0x85845dd1, 21)
    ∷ (8, 0x6fa87e4f, 6)
    ∷ (15, 0xfe2ce6e0, 10)
    ∷ (6, 0xa3014314, 15)
    ∷ (13, 0x4e0811a1, 21)
    ∷ (4, 0xf7537e82, 6)
    ∷ (11, 0xbd3af235, 10)
    ∷ (2, 0x2ad7d2bb, 15)
    ∷ (9, 0xeb86d391, 21)
    ∷ []

unfoldable pub run_steps : (f : ℕ → ℕ → ℕ → ℕ) → List ℕ → Steps → Words → Words
run_steps f block [] w = w
run_steps f block ((n, t, s) ∷ steps) w = run_steps f block steps (step f (get block n) t s w)

abbrev pub add_saved : Words → Words → Words
add_saved (words a b c d) (words saved_a saved_b saved_c saved_d) =
    words (add32 a saved_a) (add32 b saved_b) (add32 c saved_c) (add32 d saved_d)

-- One pass of the loop of `body`, on the 64 bytes that come first.
unfoldable pub body_block : List ℕ → Words → Words
body_block ptr saved =
    let w = run_steps f_function ptr round1 saved in
    let w = run_steps g_function ptr round2 w in
    let w = run_steps h_function ptr round3 w in
    let w = run_steps i_function ptr round4 w in add_saved w saved

-- `body` on `blocks` blocks; it returns the rest of the data too.
unfoldable pub body : (blocks : ℕ) → List ℕ → Words → List ℕ × Words
body zero ptr w = (ptr, w)
body (suc blocks) ptr w = body blocks (drop 64 ptr) (body_block ptr w)

-- `md5_context`. Its field `block` is not used where unaligned words can be read.
pub record Md5Context : Type 0 where
  pub lo : ℕ
  pub hi : ℕ
  pub state : Words
  pub buffer : List ℕ

-- The buffer is left as it is.
unfoldable pub md5_init : Md5Context → Md5Context
md5_init ctx = record ctx {
  lo = 0;
  hi = 0;
  state = words 0x67452301 0xefcdab89 0x98badcfe 0x10325476;
}

-- `memcpy` of `ptr` to offset `used` of a buffer.
abbrev pub copy_to : ℕ → List ℕ → List ℕ → List ℕ
copy_to used ptr buffer = take used buffer ++ ptr ++ drop (used + length ptr) buffer

-- The counters: `lo` in bytes, `hi` in units of 2^29 bytes.
unfoldable pub count : ℕ → Md5Context → Md5Context
count size ctx =
    let lo = bit_and (u64 (ctx.lo + size)) 0x1fffffff in
    let hi = if ltb lo ctx.lo then u32 (ctx.hi + 1) else ctx.hi in
    record ctx { lo = lo; hi = u32 (hi + (size >>> 29)) }

-- The end of `md5_update`: whole blocks, then what is left goes to the start of the buffer.
unfoldable pub take_blocks : List ℕ → Md5Context → Md5Context
unfolding body
take_blocks ptr ctx =
    if leb 64 (length ptr)
    then (let (rest, w) = body (length ptr / 64) ptr ctx.state in
        record ctx { state = w; buffer = copy_to 0 rest ctx.buffer })
    else record ctx { buffer = copy_to 0 ptr ctx.buffer }

unfoldable pub md5_update : List ℕ → Md5Context → Md5Context
unfolding take_blocks count
md5_update ptr ctx =
    let after = count (length ptr) ctx in
    let used = bit_and ctx.lo 0x3f in
    let free = 64 - used in
    if used == 0
    then take_blocks ptr after
    else (if ltb (length ptr) free
        then record after { buffer = copy_to used ptr ctx.buffer }
        else (let buffer = copy_to used (take free ptr) ctx.buffer in
            take_blocks (drop free ptr)
              (record after { buffer = buffer; state = body_block buffer ctx.state })))

-- The bytes of a word, the lowest first.
abbrev pub word_bytes : ℕ → List ℕ
word_bytes x = u8 x ∷ u8 (x >>> 8) ∷ u8 (x >>> 16) ∷ u8 (x >>> 24) ∷ []

abbrev pub digest : Words → List ℕ
digest (words a b c d) = word_bytes a ++ word_bytes b ++ word_bytes c ++ word_bytes d

-- The 16 bytes of the result. The context, which is cleared, is not returned.
unfoldable pub md5_final : Md5Context → List ℕ
md5_final ctx =
    let used = bit_and ctx.lo 0x3f in
    let buffer = copy_to used (0x80 ∷ []) ctx.buffer in
    let used = used + 1 in
    let free = 64 - used in
    let spill = copy_to used (replicate free 0) buffer in
    let full = ltb free 8 in
    let state = if full then body_block spill ctx.state else ctx.state in
    let zeros =
      if full
      then copy_to 0 (replicate 56 0) spill
      else copy_to used (replicate (free - 8) 0) buffer in
    let lo = shl32 ctx.lo 3 in
    digest (body_block (copy_to 56 (word_bytes lo ++ word_bytes ctx.hi) zeros) state)
