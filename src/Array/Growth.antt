-- ===== src/Array/Growth.antt =====
-- The bounds of an array, and that growing keeps them.
use timeseries_database.Base.{
  ℕ, ◌+◌, ◌*◌, ◌^◌, ◌≤◌, ◌<◌, ◌≡◌, ◌≢◌, true, false, ap, subst, sym, ◌∙◌, arith, Bool-cases, inl,
  inr, ◌==◌, ==_iff, u32, u64, some,
}
use native.Mathlib.Nat.{mul-le-mul_left}
use timeseries_database.NodeHeap.{eq_of_ne}
use timeseries_database.Array.{Array, Store, realloc, array_push, array_get}

-- The elements fit into what is allocated, whose size does not wrap around.
abbrev pub IsArray : Store → Array → Type 0
IsArray s a =
    (0 < a.size)
    × (0 < a.nalloc)
    × (a.nelem ≤ a.nalloc)
    × (a.nalloc < 2 ^ 32)
    × (a.size * a.nalloc < 2 ^ 64)
    × (a.size * a.nalloc ≤ s a.elem)

-- One element longer and in bounds, with `elem` as its last element, inside the allocation.
abbrev pub IsPushed : Array → (elem : ℕ) → Array → Store → Type 0
IsPushed a elem after store =
    IsArray store after
    × (after.nelem ≡ a.nelem + 1)
    × (array_get after a.nelem ≡ some elem)
    × (elem + a.size ≤ after.elem + store after.elem)

-- The last element of an array in bounds.
get-last :
    (a : Array) (n : ℕ)
    → a.nelem ≡ n + 1
    → a.size * n < 2 ^ 64
    → array_get a n ≡ some (a.elem + a.size * n)
unfolding array_get
get-last a n e small = ground arith

room :
    (a : Array) (s : Store)
    → IsArray s a
    → a.nelem < a.nalloc
    → IsPushed a (a.elem + u64 (a.size * a.nelem)) (record a { nelem = u32 (a.nelem + 1) }) s
room a s (size, alloc, le, int, small, fits) lt =
    let step : a.size * (a.nelem + 1) ≤ a.size * a.nalloc = mul-le-mul_left a.size (omega arith) in
    let offset : u64 (a.size * a.nelem) ≡ a.size * a.nelem = omega arith in
    let count : u32 (a.nelem + 1) ≡ a.nelem + 1 = omega arith in
    (
      (size, alloc, omega arith, int, small, fits),
      count,
      get-last (record a { nelem = u32 (a.nelem + 1) }) a.nelem count (omega arith)
          ∙ ap (λ t. some (a.elem + t)) (sym offset),
      omega arith,
    )

grown :
    (new : ℕ) (a : Array) (s : Store)
    → IsArray s a
    → a.nelem ≡ a.nalloc
    → new ≢ 0
    → a.nalloc * 2 < 2 ^ 32
    → 2 * (a.size * a.nalloc) < 2 ^ 64
    → IsPushed a
        (new + u64 (a.size * a.nelem))
        (record a { elem = new; nalloc = u32 (a.nalloc * 2); nelem = u32 (a.nelem + 1) })
        (realloc new a.elem (u64 (2 * u64 (a.size * a.nalloc))) s)
grown new a s (size, alloc, le, int, small, fits) full ne half bytes =
    let double : u32 (a.nalloc * 2) ≡ a.nalloc * 2 = omega arith in
    let total : a.size * u32 (a.nalloc * 2) ≡ 2 * (a.size * a.nalloc) =
      ap (λ t. a.size * t) double ∙ omega arith in
    let extent : realloc new a.elem (u64 (2 * u64 (a.size * a.nalloc))) s new
        ≡ 2 * (a.size * a.nalloc) =
      ground arith in
    let same : a.size * a.nelem ≡ a.size * a.nalloc = ap (λ t. a.size * t) full in
    let one : a.size * 1 ≤ a.size * a.nalloc = mul-le-mul_left a.size alloc in
    let offset : u64 (a.size * a.nelem) ≡ a.size * a.nelem = omega arith in
    let count : u32 (a.nelem + 1) ≡ a.nelem + 1 = omega arith in
    (
      (size, omega arith, omega arith, omega arith, omega arith, omega arith),
      count,
      get-last (record a { elem = new; nalloc = u32 (a.nalloc * 2); nelem = u32 (a.nelem + 1) })
            a.nelem count (omega arith)
          ∙ ap (λ t. some (new + t)) (sym offset),
      omega arith,
    )

module _ (new : ℕ) (a : Array) (s : Store) where
  push_full :
      (a.nelem == a.nalloc) ≡ true
      → new ≢ 0
      → array_push new a s ≡ (
        new + u64 (a.size * a.nelem),
        record a { elem = new; nalloc = u32 (a.nalloc * 2); nelem = u32 (a.nelem + 1) },
        realloc new a.elem (u64 (2 * u64 (a.size * a.nalloc))) s,
      )
  unfolding array_push
  push_full full ne = rw (full, eq_of_ne new 0 ne)

  push_room :
      (a.nelem == a.nalloc) ≡ false
      → array_push new a s
        ≡ (a.elem + u64 (a.size * a.nelem), record a { nelem = u32 (a.nelem + 1) }, s)
  unfolding array_push
  push_room free = rw free

-- Pushing onto an array that has room or can be doubled makes it one element longer and keeps it
-- in bounds; the new element is its last one, inside the allocation. realloc does not fail, and
-- the doubled sizes do not wrap around.
pub array_push-IsArray :
    (new : ℕ) (a : Array) (s : Store)
    → IsArray s a
    → new ≢ 0
    → a.nalloc * 2 < 2 ^ 32
    → 2 * (a.size * a.nalloc) < 2 ^ 64
    → let (elem, after, store) = array_push new a s in IsPushed a elem after store
array_push-IsArray new a s ok ne half bytes = elim (Bool-cases (a.nelem == a.nalloc)) [
  | inl full ↦
      subst (λ r. IsPushed a r.0 r.1 r.2) (sym (push_full new a s full ne))
        (grown new a s ok ((==_iff a.nelem a.nalloc).0 full) ne half bytes)
  | inr free ↦
      subst (λ r. IsPushed a r.0 r.1 r.2) (sym (push_room new a s free))
        (room a s ok (ground arith))
]
