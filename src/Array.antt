-- ===== src/Array.antt =====
-- array.c: an array that grows by doubling. What `malloc` and `realloc` return is an argument; a
-- failed `assert` is `none`.
pub mod Growth
pub mod Access
pub mod Each
mod Tests
use timeseries_database.Base.{
  ℕ, zero, suc, ◌+◌, ◌-◌, ◌*◌, ◌/◌, ◌%◌, Bool, true, false, ◌&&◌, ◌||◌, not, Option, none, some,
  List, [], ◌∷◌, ◌==◌, ltb, leb, if◌then◌else◌, u32, u64,
}

-- `struct array`; `elem` is an address, 0 for `NULL`.
pub record Array : Type 0 where
  pub nelem : ℕ
  pub elem : ℕ
  pub size : ℕ
  pub nalloc : ℕ

-- How many bytes are allocated at an address.
abbrev pub Store : Type 0
Store = ℕ → ℕ

-- The store after `malloc(bytes)` returned `new`, and after `free(p)`.
abbrev pub malloc : (new bytes : ℕ) → Store → Store
malloc new bytes s p = if new == 0 then s p else (if p == new then bytes else s p)

abbrev pub free : ℕ → Store → Store
free p s q = if q == p then 0 else s q

-- The store after `realloc(p, bytes)` returned `new`.
abbrev pub realloc : (new p bytes : ℕ) → Store → Store
realloc new p bytes s = if new == 0 then s else malloc new bytes (free p s)

abbrev pub assert : {A : Type 0} → Bool → Option A → Option A
assert ok x = if ok then x else none

-- The status, 0 for 0 and 3 for -3, with the fields of `a` and the store.
unfoldable pub array_init : (new n size : ℕ) → Array → Store → Option (ℕ × Array × Store)
array_init new n size a s = assert (not (n == 0) && not (size == 0)) (
    if new == 0
    then some (3, record a { elem = 0 }, s)
    else some (
      0,
      record { nelem = 0; elem = new; size = size; nalloc = n },
      malloc new (u64 (n * size)) s,
    ))

-- `self` is what `malloc` returns for the structure, which lives outside the store.
unfoldable pub array_create : (self new n size : ℕ) → Store → Option (Option Array × Store)
array_create self new n size s = assert (not (n == 0) && not (size == 0)) (
    if self == 0
    then some (none, s)
    else (if new == 0
        then some (none, s)
        else some (
          some (record { nelem = 0; elem = new; size = size; nalloc = n }),
          malloc new (u64 (n * size)) s,
        )))

unfoldable pub array_deinit : Array → Store → Option Store
array_deinit a s = assert (a.nelem == 0) (if a.elem == 0 then some s else some (free a.elem s))

-- The structure is freed too, outside the store.
unfoldable pub array_destroy : Array → Store → Option Store
unfolding array_deinit
array_destroy a s = array_deinit a s

-- `qsort` by the given comparison, on the contents of the memory.
unfoldable pub array_sort :
    {Contents : Type 0}
    → (qsort : (elem nelem size : ℕ) → Contents → Contents) → Array
    → Contents
    → Option Contents
array_sort qsort a contents =
    assert (not (a.nelem == 0)) (some (qsort a.elem a.nelem a.size contents))

unfoldable pub array_idx : Array → ℕ → Option ℕ
array_idx a elem =
    assert (leb a.elem elem)
      (let off = u32 (elem - a.elem) in assert (off % u32 a.size == 0) (some (off / u32 a.size)))

-- `NULL`, which is 0, when the array is full and cannot grow.
unfoldable pub array_push : (new : ℕ) → Array → Store → ℕ × Array × Store
array_push new a s =
    if a.nelem == a.nalloc
    then (if new == 0 then (0, a, s) else (
      new + u64 (a.size * a.nelem),
      record a { elem = new; nalloc = u32 (a.nalloc * 2); nelem = u32 (a.nelem + 1) },
      realloc new a.elem (u64 (2 * u64 (a.size * a.nalloc))) s,
    ))
    else (a.elem + u64 (a.size * a.nelem), record a { nelem = u32 (a.nelem + 1) }, s)

unfoldable pub array_pop : Array → Option (ℕ × Array)
array_pop a =
    assert (not (a.nelem == 0))
      (let n = a.nelem - 1 in some (a.elem + u64 (a.size * n), record a { nelem = n }))

unfoldable pub array_get : Array → ℕ → Option ℕ
array_get a idx =
    assert (not (a.nelem == 0)) (assert (ltb idx a.nelem) (some (a.elem + u64 (a.size * idx))))

unfoldable pub array_top : Array → Option ℕ
unfolding array_get
array_top a = assert (not (a.nelem == 0)) (array_get a (a.nelem - 1))

unfoldable pub array_swap : Array → Array → Array × Array
array_swap a b = let tmp = a in (b, tmp)

unfoldable pub array_n : Array → ℕ
array_n a = a.nelem

-- `data` is what the callback reads and writes, the array included, which may be changed by it:
-- `array_of` is the array in it. A callback that is NULL is `none`.
module _ {D : Type 0} (array_of : D → Array) where
  -- `left` rounds from `i` on.
  unfoldable pub each_loop : (func : ℕ → D → ℕ × D) (left i : ℕ) → D → Option (ℕ × D)
  each_loop func zero i data' = some (0, data')
  each_loop func (suc left) i data' = elim (array_get (array_of data') i) [
    | none ↦ none
    | some elem ↦
        let (status, after) = func elem data' in
        let rest = each_loop func left (i + 1) after in
        if status == 0 then rest else some (status, after)
  ]

  unfoldable pub array_each : Option (ℕ → D → ℕ × D) → D → Option (ℕ × D)
  array_each func data' =
      let nelem = array_n (array_of data') in
      assert (not (nelem == 0))
        (elim func [ none ↦ none | some func ↦ each_loop func nelem 0 data' ])

unfoldable pub array_null : Array → Array
array_null a = record { nelem = 0; elem = 0; size = 0; nalloc = 0 }

unfoldable pub array_set : Array → (elem size nalloc : ℕ) → Array
array_set a elem size nalloc = record { nelem = 0; elem = elem; size = size; nalloc = nalloc }
