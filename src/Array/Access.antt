-- ===== src/Array/Access.antt =====
-- `array_pop`, `array_top`, `array_get` and `array_idx` on an array.
use timeseries_database.Base.{
  ℕ, ◌+◌, ◌-◌, ◌*◌, ◌%◌, ◌^◌, ◌≤◌, ◌<◌, ◌≡◌, ◌≢◌, ap, arith, some, u32, u64, ◌==◌, true, false, leb,
}
use timeseries_database.NodeHeap.{eq_of_ne}
use native.Mathlib.Nat.{mul-le-mul_left, mul-div_right, mul-mod_right}
use timeseries_database.Array.{Array, Store, array_push, array_pop, array_get, array_idx}
use timeseries_database.Array.Growth.{IsArray, array_push-IsArray}

-- What `array_get` returns.
get_lem :
    (a : Array) (i : ℕ) {elem : ℕ}
    → array_get a i ≡ some elem
    → (i < a.nelem) × (a.elem + u64 (a.size * i) ≡ elem)
unfolding array_get
get_lem a i got = (ground arith, ground arith)

-- `array_pop` takes what `array_get` returns for the last index.
pop-get_last :
    (a : Array) (n : ℕ) {elem : ℕ}
    → a.nelem ≡ n + 1
    → array_get a n ≡ some elem
    → array_pop a ≡ some (elem, record a { nelem = n })
unfolding array_pop array_get
pop-get_last a n e got =
    let positive : (a.nelem == 0) ≡ false = eq_of_ne a.nelem 0 (λ z. omega arith) in
    let before : a.nelem - 1 ≡ n = omega arith in
    rw (positive, before) (ap (λ t. some (t, record a { nelem = n })) (get_lem a n got).1)

-- Popping the element that was just pushed gives its address back, and leaves as many elements as
-- before, under the conditions of the push.
pub array_pop-array_push :
    (new : ℕ) (a : Array) (s : Store)
    → IsArray s a
    → new ≢ 0
    → a.nalloc * 2 < 2 ^ 32
    → 2 * (a.size * a.nalloc) < 2 ^ 64
    → let (elem, after, store) = array_push new a s in
      array_pop after ≡ some (elem, record after { nelem = a.nelem })
array_pop-array_push new a s ok ne half bytes =
    let (bounds, count, last, inside) = array_push-IsArray new a s ok ne half bytes in
    pop-get_last (array_push new a s).1 a.nelem count last

-- array_idx gives the index of what array_get returns, on an array in bounds whose elements span
-- less than 2^32 bytes.
pub array_idx-array_get :
    (s : Store) (a : Array) (i elem : ℕ)
    → IsArray s a
    → a.size * a.nelem < 2 ^ 32
    → array_get a i ≡ some elem
    → array_idx a elem ≡ some i
unfolding array_idx array_get
array_idx-array_get s a i elem ok small e =
    let (here, at) = get_lem a i e in
    let span : a.size * (i + 1) ≤ a.size * a.nelem = mul-le-mul_left a.size (omega arith) in
    let above : leb a.elem elem ≡ true = ground arith in
    let offset : u32 (elem - a.elem) ≡ a.size * i = omega arith in
    let size : u32 a.size ≡ a.size = omega arith in
    let exact : (a.size * i) % a.size ≡ 0 = mul-mod_right a.size i in
    rw (above, offset, size, exact, mul-div_right i ok.0)
