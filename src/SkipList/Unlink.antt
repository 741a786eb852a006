-- ===== src/SkipList/Unlink.antt =====
-- What the unlinking loop of `skip_list_remove` does to the heap.
use timeseries_database.Base.{
  ℕ, zero, suc, ◌+◌, ◌≤◌, ◌<◌, ◌≡◌, ◌≢◌, refl, sym, ◌∙◌, ap, ◌⊎◌, arith, ◌==◌, if◌then◌else◌,
}
use native.Mathlib.Decide.{dec_lt}
use native.Mathlib.Numerals.{add-one}
use timeseries_database.NodeHeap.{
  Ptr, null, link, Heap, ok, put, run-load_next, run-set_next, run-then, run-else, eq_of_ne,
}
use timeseries_database.SkipList.{unlink}
use timeseries_database.SkipList.Scan.{entries}

-- The heap after `old` is taken out behind `u j` at the levels `j` from `i`, `n` of them.
unfoldable pub unlinked : Ptr → (ℕ → Ptr) → ℕ → ℕ → Heap → Heap
unlinked old u i zero h = h
unlinked old u i (suc n) h = unlinked old u (suc i) n (put h (u i) i (h.next old i))

module _ (old : Ptr) (u : ℕ → Ptr) where
  pub unlinked-node : (i n : ℕ) (h : Heap) (a : Ptr) → (unlinked old u i n h).node a ≡ h.node a
  unfolding unlinked put
  unlinked-node i zero h a = refl
  unlinked-node i (suc n) h a = unlinked-node (suc i) n (put h (u i) i (h.next old i)) a

  -- Below and above these levels nothing changes.
  pub unlinked-outside :
      (i n j : ℕ) (h : Heap) (a : Ptr)
      → (j < i) ⊎ (i + n ≤ j)
      → (unlinked old u i n h).next a j ≡ h.next a j
  unfolding unlinked put
  unlinked-outside i zero j h a out = refl
  unlinked-outside i (suc n) j h a out =
      ground (arith, unlinked-outside (suc i) n j (put h (u i) i (h.next old i)) a)

  put-other :
      (i j : ℕ) (h : Heap) (a : Ptr) → i < j → (put h (u i) i (h.next old i)).next a j ≡ h.next a j
  unfolding put
  put-other i j h a lt = ground arith

  put-same :
      (i j : ℕ) (h : Heap) (a : Ptr)
      → i ≡ j
      → (put h (u i) i (h.next old i)).next a j ≡ (if a == u j then h.next old j else h.next a j)
  unfolding put
  put-same i j h a e = ground arith

  -- At each of them `u j` leads to what `old` led to.
  pub unlinked-inside :
      (i n j : ℕ) (h : Heap) (a : Ptr)
      → i ≤ j
      → j < i + n
      → (unlinked old u i n h).next a j ≡ (if a == u j then h.next old j else h.next a j)
  unfolding unlinked
  unlinked-inside i zero j h a le lt = absurd (omega arith)
  unlinked-inside i (suc n) j h a le lt = elim (dec_lt i j) [
    | yes above ↦ ground (
      arith,
      unlinked-inside (suc i) n j (put h (u i) i (h.next old i)) a,
      put-other i j h a,
      put-other i j h old,
    )
    | no at ↦
        ground
          (arith, unlinked-outside (suc i) n j (put h (u i) i (h.next old i)) a, put-same i j h a)
  ]

-- Where `update` is NULL nothing happens.
pub unlink-null :
    (v : ℕ → Ptr) (i n : ℕ) (temp : Ptr) (h : Heap)
    → ((j : ℕ) → i ≤ j → v j ≡ null)
    → unlink i (entries v i n) temp h ≡ ok temp h
unfolding unlink entries
unlink-null v i zero temp h none = refl
unlink-null v i (suc n) temp h none =
    run-then {b = v i == null} _ _ (ap (λ p. p == null) (none i (omega arith)))
    ∙ ap (λ k. unlink k (entries v (suc i) n) temp h) (add-one i)
    ∙ unlink-null v (suc i) n temp h (λ j le. none j (omega arith))

module _ (old : Ptr) (v : ℕ → Ptr) where
  -- The `k` levels from `i` at which `v` is not NULL are unlinked, and `old` is what is found.
  pub unlink-unlinked :
      (i n k : ℕ) (temp : Ptr) (h : Heap)
      → k ≤ n
      → ((j : ℕ)
          → i ≤ j
          → j < i + k
          → (v j ≢ null) × (h.next (v j) j ≡ link old) × (q : Ptr) × (h.next old j ≡ link q))
      → ((j : ℕ) → i + k ≤ j → v j ≡ null)
      → unlink i (entries v i n) temp h ≡ ok (if k == 0 then temp else old) (unlinked old v i k h)
  unfolding unlink unlinked entries
  unlink-unlinked i n zero temp h le here over =
      unlink-null v i n temp h (λ j above. over j (omega arith))
  unlink-unlinked i zero (suc k) temp h le here over = absurd (omega arith)
  unlink-unlinked i (suc n) (suc k) temp h le here over =
      run-else _ _ (eq_of_ne (v i) null at.0)
      ∙ run-load_next (v i) i _ at.1
      ∙ run-load_next old i _ at.3
      ∙ run-set_next h (v i) i at.2 _ (λ e. let x = at.1 in cc)
      ∙ ap (λ c. unlink (i + 1) (entries v (suc i) n) old (put h (v i) i c)) (sym at.3)
      ∙ ap (λ j. unlink j (entries v (suc i) n) old (put h (v i) i (h.next old i))) (add-one i)
      ∙ unlink-unlinked (suc i) n k old (put h (v i) i (h.next old i)) (omega arith)
          (λ j above lt.
            let there = here j (omega arith) (omega arith) in
            (
              there.0,
              put-other old v i j h (v j) above ∙ there.1,
              there.2,
              put-other old v i j h old above ∙ there.3,
            ))
          (λ j above. over j (omega arith))
      ∙ ap (λ p. ok p (unlinked old v (suc i) k (put h (v i) i (h.next old i)))) (ground arith)
    where
      at : (v i ≢ null) × (h.next (v i) i ≡ link old) × (q : Ptr) × (h.next old i ≡ link q)
      at = here i (omega arith) (omega arith)
