-- ===== src/Array/Tests.antt =====
-- An array at work, and the theorems at concrete arrays.
use timeseries_database.Base.{ℕ, ◌+◌, ◌≡◌, refl, none, some, arith, if◌then◌else◌, ◌==◌}
use timeseries_database.Array.{
  Array, Store, array_push, array_pop, array_get, array_idx, array_each, each_loop, array_n,
}
use timeseries_database.Array.Growth.{IsArray, IsPushed, array_push-IsArray}
use timeseries_database.Array.Access.{array_pop-array_push, array_idx-array_get}
use timeseries_database.Array.Each.{elements, run_each, array_each-run_each}

-- Two elements of 8 bytes at address 100, and no room for a third.
abbrev full : Array
full = record { nelem = 2; elem = 100; size = 8; nalloc = 2 }

abbrev store : Store
store p = 16

full_bounds : IsArray store full
full_bounds = (omega arith, omega arith, omega arith, omega arith, omega arith, omega arith)

array_push-IsArray_example :
    let (elem, after, s) = array_push 200 full store in IsPushed full elem after s
array_push-IsArray_example =
    array_push-IsArray 200 full store full_bounds (λ e. omega arith) (omega arith) (omega arith)

array_pop-array_push_example :
    let (elem, after, s) = array_push 200 full store in
    array_pop after ≡ some (elem, record after { nelem = 2 })
array_pop-array_push_example =
    array_pop-array_push 200 full store full_bounds (λ e. omega arith) (omega arith) (omega arith)

array_idx-array_get_example : array_idx full 108 ≡ some 1
array_idx-array_get_example =
    array_idx-array_get store full 1 108 full_bounds (omega arith) (unfold array_get in refl)

abbrev array_of : Array × ℕ → Array
array_of (a, count) = a

-- Counts the elements, and fails at the address 108.
abbrev tally : ℕ → Array × ℕ → ℕ × (Array × ℕ)
tally x (a, count) = (if x == 108 then 7 else 0, (a, count + 1))

array_each-run_each_example :
    array_each array_of (some tally) (full, 0) ≡ some (run_each tally (elements 100 8 2) (full, 0))
array_each-run_each_example =
    array_each-run_each array_of tally (full, 0) (λ x d. refl) (omega arith) (omega arith)

each_stops : array_each array_of (some tally) (full, 0) ≡ some (7, (full, 2))
unfolding array_each each_loop array_get array_n
each_stops = refl

-- Takes an element off the array: the next round looks for an element that is no longer there.
abbrev shrink : ℕ → Array × ℕ → ℕ × (Array × ℕ)
shrink x (a, count) = (0, (record a { nelem = 1 }, count))

each_shrinks : array_each array_of (some shrink) (full, 0) ≡ none
unfolding array_each each_loop array_get array_n
each_shrinks = refl
