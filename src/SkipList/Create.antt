-- ===== src/SkipList/Create.antt =====
-- `skip_list_create` makes an empty skip list.
use timeseries_database.Base.{
  ℕ, zero, suc, ◌+◌, ◌≤◌, ◌<◌, ◌≡◌, ◌≢◌, refl, sym, ◌∙◌, ap, some, [], arith,
}
use timeseries_database.Base.Int.{ℤ, pos, negsuc}
use native.Mathlib.Decide.{dec_lt}
use native.Mathlib.Numerals.{add-one}
use timeseries_database.NodeHeap.{
  Ptr, null, no_cell, link, valid, Header, Heap, ok, put, allocate, run-set_next, run, run-else,
  eq_of_ne,
}
use timeseries_database.SkipList.{SkipList, clamp_level, fill_head, skip_list_create}
use timeseries_database.SkipList.Chain.{end, IsSkipList}

-- The loop writes the tail into the `n` cells of the head from `i`.
record Filled (head tail : Ptr) (i n : ℕ) (h g : Heap) : Type 0 where
  node : (a : Ptr) → g.node a ≡ h.node a
  inside : (j : ℕ) → i ≤ j → j < i + n → g.next head j ≡ link tail
  below : (j : ℕ) → j < i → g.next head j ≡ h.next head j

module _ (head tail : Ptr) where
  put-below : (h : Heap) (i j : ℕ) → j ≢ i → (put h head i (link tail)).next head j ≡ h.next head j
  unfolding put
  put-below h i j ne = ground arith

  put-at : (h : Heap) (i : ℕ) → (put h head i (link tail)).next head i ≡ link tail
  unfolding put
  put-at h i = ground arith

  put-node : (h : Heap) (i : ℕ) (a : Ptr) → (put h head i (link tail)).node a ≡ h.node a
  unfolding put
  put-node h i a = refl

  fill_head-Filled :
      (n i : ℕ) (h : Heap)
      → ((j : ℕ) → i ≤ j → j < i + n → h.next head j ≢ no_cell)
      → (g : Heap) × (fill_head head tail n i h ≡ ok tt g) × Filled head tail i n h g
  unfolding fill_head
  fill_head-Filled zero i h room = (
    h,
    refl,
    record { node = λ a. refl; inside = λ j p q. absurd (omega arith); below = λ j p. refl },
  )
  fill_head-Filled (suc n) i h room =
      let h' = put h head i (link tail) in
      let rest =
        fill_head-Filled n (suc i) h' (λ j p q e.
          room j (omega arith) (omega arith) (sym (put-below h i j (omega arith)) ∙ e)) in
      (
        rest.0,
        run-set_next h head i tail _ (room i (omega arith) (omega arith))
            ∙ ap (λ k. fill_head head tail n k h') (add-one i)
            ∙ rest.1,
        record {
          node = λ a. rest.2.node a ∙ put-node h i a;
          inside = λ j p q. elim (dec_lt i j) [
            | yes lt ↦ rest.2.inside j lt (omega arith)
            | no at ↦
                rest.2.below j (omega arith)
                ∙ ap ((put h head i (link tail)).next head) (omega arith)
                ∙ put-at h i
          ];
          below = λ j p. rest.2.below j (omega arith) ∙ put-below h i j (omega arith);
        },
      )

-- The number of levels is between 0 and 8, and it is 1 if the argument is negative.
pub clamp_level-bounds :
    (n : ℕ) → (clamp_level (negsuc n) ≡ 1) × (clamp_level (pos n) ≤ 8) × (clamp_level (pos n) ≤ n)
clamp_level-bounds n = ground arith

-- Creating a list, at two addresses that differ, the head's not NULL, gives an empty skip list
-- with the clamped number of levels. The tail holds what its memory held before.
pub skip_list_create-IsSkipList :
    (h : Heap) (head tail : Ptr) (junk : Header) (max_level : ℤ)
    → head ≢ null
    → head ≢ tail
    → let st : SkipList = record { max_level = clamp_level max_level; head = head; tail = tail } in
      (g : Heap) × (skip_list_create head tail junk max_level h ≡ ok st g)
      × IsSkipList g st []
      × (g.node tail ≡ some junk)
skip_list_create-IsSkipList h head tail junk max_level ne_null ne = (
  filled.0,
  unfold skip_list_create in
      run-else _ _ (eq_of_ne head null ne_null) ∙ run (fill_head head tail m 0) _ filled.1,
  record {
    nodes = tt;
    sorted = tt;
    distinct = tt;
    not_null = tt;
    not_head = tt;
    not_tail = tt;
    head_ne_tail = ne;
    head_ne_null = ne_null;
    chains = λ j lt. end (filled.2.inside j (omega arith) (omega arith));
  },
  filled.2.node tail ∙ unfold allocate in ground arith,
)
  where
    m : ℕ
    m = clamp_level max_level

    start : Heap
    start = allocate tail junk 0 (allocate head (record junk { array = valid }) m h)

    filled : (g : Heap) × (fill_head head tail m 0 start ≡ ok tt g) × Filled head tail 0 m start g
    filled = fill_head-Filled head tail m 0 start (λ j p q e. unfold allocate in ground arith)
