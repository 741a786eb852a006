-- ===== src/SkipList/Splice.antt =====
-- What the linking loop of `skip_list_insert` does to the heap.
use timeseries_database.Base.{
  ℕ, zero, suc, ◌+◌, ◌≤◌, ◌<◌, ◌≡◌, ◌≢◌, refl, sym, ◌∙◌, ap, ◌⊎◌, arith, ◌==◌, if◌then◌else◌,
}
use native.Mathlib.Decide.{dec_lt}
use native.Mathlib.Numerals.{add-one}
use timeseries_database.NodeHeap.{Ptr, no_cell, link, Heap, ok, put, run-load_next, run-set_next}
use timeseries_database.SkipList.{splice}
use timeseries_database.SkipList.Scan.{entries}

-- The heap after `new` is linked behind `u j` at the levels `j` from `i`, `n` of them.
unfoldable pub spliced : Ptr → (ℕ → Ptr) → ℕ → ℕ → Heap → Heap
spliced new u i zero h = h
spliced new u i (suc n) h =
    spliced new u (suc i) n (put (put h new i (h.next (u i) i)) (u i) i (link new))

module _ (new : Ptr) (u : ℕ → Ptr) where
  pub spliced-node : (i n : ℕ) (h : Heap) (a : Ptr) → (spliced new u i n h).node a ≡ h.node a
  unfolding spliced put
  spliced-node i zero h a = refl
  spliced-node i (suc n) h a =
      spliced-node (suc i) n (put (put h new i (h.next (u i) i)) (u i) i (link new)) a

  -- Below and above these levels nothing changes.
  pub spliced-outside :
      (i n j : ℕ) (h : Heap) (a : Ptr)
      → (j < i) ⊎ (i + n ≤ j)
      → (spliced new u i n h).next a j ≡ h.next a j
  unfolding spliced put
  spliced-outside i zero j h a out = refl
  spliced-outside i (suc n) j h a out =
      ground (
        arith,
        spliced-outside (suc i) n j (put (put h new i (h.next (u i) i)) (u i) i (link new)) a,
      )

  -- The heap after one round.
  abbrev after : Heap → ℕ → Heap
  after h i = put (put h new i (h.next (u i) i)) (u i) i (link new)

  put_pair-other : (i j : ℕ) (h : Heap) (a : Ptr) → i < j → (after h i).next a j ≡ h.next a j
  unfolding put
  put_pair-other i j h a lt = ground arith

  put_pair-same :
      (i j : ℕ) (h : Heap) (a : Ptr)
      → i ≡ j
      → (after h i).next a j
        ≡ (if a == u j then link new else if a == new then h.next (u j) j else h.next a j)
  unfolding put
  put_pair-same i j h a e = ground arith

  -- At each of them `u j` leads to `new`, and `new` to what `u j` led to.
  pub spliced-inside :
      (i n j : ℕ) (h : Heap) (a : Ptr)
      → i ≤ j
      → j < i + n
      → (spliced new u i n h).next a j
        ≡ (if a == u j then link new else if a == new then h.next (u j) j else h.next a j)
  unfolding spliced
  spliced-inside i zero j h a le lt = absurd (omega arith)
  spliced-inside i (suc n) j h a le lt = elim (dec_lt i j) [
    | yes above ↦ ground (
      arith,
      spliced-inside (suc i) n j (after h i) a,
      put_pair-other i j h a,
      put_pair-other i j h (u j),
    )
    | no at ↦ ground (arith, spliced-outside (suc i) n j (after h i) a, put_pair-same i j h a)
  ]

  pub splice-spliced :
      (i n l : ℕ) (h : Heap)
      → n ≤ l
      → ((j : ℕ) → i ≤ j → j < i + n → (q : Ptr) × (h.next (u j) j ≡ link q))
      → ((j : ℕ) → i ≤ j → j < i + n → h.next new j ≢ no_cell)
      → ((j : ℕ) → new ≢ u j)
      → splice new n i (entries u i l) h ≡ ok tt (spliced new u i n h)
  unfolding splice spliced entries
  splice-spliced i zero l h le linked room ne = refl
  splice-spliced i (suc n) zero h le linked room ne = absurd (omega arith)
  splice-spliced i (suc n) (suc l) h le linked room ne =
      run-load_next (u i) i _ here.1
      ∙ run-set_next h new i here.0 _ (room i (omega arith) (omega arith))
      ∙ run-set_next (put h new i (link here.0)) (u i) i new _ (readable)
      ∙ ap
          (λ c. splice new n (i + 1) (entries u (suc i) l) (put (put h new i c) (u i) i (link new)))
          (sym here.1)
      ∙ ap (λ k. splice new n k (entries u (suc i) l) (after h i)) (add-one i)
      ∙ splice-spliced (suc i) n l (after h i) (omega arith)
          (λ j above lt. (
            (linked j (omega arith) (omega arith)).0,
            put_pair-other i j h (u j) above ∙ (linked j (omega arith) (omega arith)).1,
          ))
          (λ j above lt e.
            room j (omega arith) (omega arith) (sym (put_pair-other i j h new above) ∙ e))
          ne
    where
      here : (q : Ptr) × (h.next (u i) i ≡ link q)
      here = linked i (omega arith) (omega arith)

      readable : (put h new i (link here.0)).next (u i) i ≢ no_cell
      readable e = unfold put in ground (arith, here.1, ne i)
