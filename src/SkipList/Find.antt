-- ===== src/SkipList/Find.antt =====
-- `skip_list_find` against the abstract view.
use timeseries_database.Base.{
  ℕ, zero, suc, ◌<◌, ◌≡◌, ◌≢◌, refl, sym, ◌∙◌, ap, ◌⊎◌, inl, inr, some, List, [], ◌∷◌, arith,
  length, ◌==◌, if◌then◌else◌, Bool-cases, ==_iff,
}
use native.Mathlib.Nat.{lt_trans}
use timeseries_database.NodeHeap.{
  Ptr, null, link, Heap, ok, Cmd, pure, ◌>>=◌, load, load_next, run, run-load, run-load_next,
  run-then, run-else, eq_self, eq_of_ne,
}
use timeseries_database.SkipList.{SkipList, walk, find_loop, skip_list_find}
use timeseries_database.SkipList.Chain.{
  Entry, header, Fresh, Below, Descending, Nodes, Chain, end, visit, skip, lookup, IsSkipList,
}
use timeseries_database.SkipList.Seek.{
  seek, IsStop, IsStop-seek, IsStop-lower, walk-seek, seek-lookup, seek-Below, lookup-Below,
}

-- The node that the pointer of level `i` at `q` leads to.
pub record Next (h : Heap) (t : Ptr) (i : ℕ) (q : Ptr) (s : List Entry) : Type 0 where
  pub n : Entry
  pub points : h.next q i ≡ link n.addr
  pub holds : h.node n.addr ≡ some (header n)
  pub not_tail : n.addr ≢ t
  pub before : (b : ℕ) → Below b s → n.key < b
  pub kept : lookup n.key s ≡ n.ptr
  pub first : i ≡ 0 → (b : ℕ) → n.key < b → Below b s

-- The tail, or a node; at level 0 it is the tail only at the end of the list.
pub next_cases :
    {h : Heap} {t : Ptr} {i : ℕ} {q : Ptr} {s : List Entry} (m : ℕ)
    → Chain h t i q s
    → Nodes h m s
    → Descending s
    → Fresh t s
    → ((h.next q i ≡ link t) × (i ≡ 0 → s ≡ [])) ⊎ Next h t i q s
unfolding lookup
next_cases m (end e) nodes sorted fresh = inl (e, λ _. refl)
next_cases m (visit {n} high e c) nodes sorted fresh = inr (record {
  n = n;
  points = e;
  holds = nodes.0;
  not_tail = λ eq. fresh.0 (sym eq);
  before = λ b below. below;
  kept = ground arith;
  first = λ z b lt. lt;
})
next_cases m (skip {n} low c) nodes sorted fresh = elim (next_cases m c nodes.2 sorted.1 fresh.1) [
  | inl (e, at_end) ↦ inl (e, λ z. absurd (omega arith))
  | inr x ↦ inr (record {
    n = x.n;
    points = x.points;
    holds = x.holds;
    not_tail = x.not_tail;
    before = λ b below. lt_trans (x.before n.key sorted.0) below;
    kept = ground (arith, x.kept, x.before n.key sorted.0);
    first = λ z b lt. absurd (omega arith);
  })
]

lookup_at_end : (key : ℕ) (s : List Entry) → s ≡ [] → lookup key s ≡ null
unfolding lookup
lookup_at_end key s e = ap (lookup key) e

no-Nodes : (h : Heap) (m key : ℕ) (ns : List Entry) → m ≡ 0 → Nodes h m ns → lookup key ns ≡ null
unfolding lookup
no-Nodes h m key [] z nodes = refl
no-Nodes h m key (n ∷ ns) z nodes = absurd (omega arith)

module _ (h : Heap) (st : SkipList) (m fuel key : ℕ) where
  -- The search from level `i` down, at the node `q` that `s` follows, returns what `s` keeps.
  abbrev Finds : ℕ → Type 0
  Finds i =
      (q : Ptr) (s : List Entry)
      → IsStop h st.tail m fuel i q s
      → (i ≡ 0 → lookup key s ≡ null)
      → find_loop fuel st key i q h ≡ ok (lookup key s) h

  -- What the code does with the pointer that it finds where the walk stopped.
  abbrev look : ℕ → Ptr → Ptr → Cmd Ptr
  look i q next =
      if next == st.tail
      then find_loop fuel st key i q
      else do n ← load next; if n.key == key then pure n.ptr else find_loop fuel st key i q

  look-lookup :
      (i : ℕ) (q : Ptr) (s : List Entry)
      → IsStop h st.tail m fuel (suc i) q s
      → (i ≡ 0 → Below (suc key) s)
      → Finds i
      → (load_next q i >>= look i q) h ≡ ok (lookup key s) h
  look-lookup i q s stop below ih =
      elim (next_cases m (stop.chains i (omega arith)) stop.nodes stop.sorted stop.fresh) [
        | inl (e, at_end) ↦
            run-load_next q i _ e
            ∙ run-then _ _ (eq_self st.tail)
            ∙ ih q s (IsStop-lower stop) (λ z. lookup_at_end key s (at_end z))
        | inr x ↦
            run-load_next q i _ x.points
            ∙ run-else _ _ (eq_of_ne x.n.addr st.tail x.not_tail)
            ∙ run-load x.n.addr _ x.holds
            ∙ elim (Bool-cases (x.n.key == key)) [
              | inl hit ↦
                  run-then _ _ hit
                  ∙ ap (λ v. ok v h) (sym x.kept ∙ ap (λ k. lookup k s) ((==_iff _ _).0 hit))
              | inr miss ↦
                  run-else _ _ miss
                  ∙ ih q s (IsStop-lower stop) λ z.
                    lookup-Below key s
                      (x.first z key (ground (arith, x.before (suc key) (below z)))) stop.sorted
            ]
      ]

  level-lookup : (i : ℕ) → Finds i → Finds (suc i)
  unfolding find_loop
  level-lookup i ih q s stop none_left =
      elim (next_cases m (stop.chains i (omega arith)) stop.nodes stop.sorted stop.fresh) [
        | inl (e, at_end) ↦
            run-load_next q i _ e
            ∙ run-then _ _ (eq_self st.tail)
            ∙ ih q s (IsStop-lower stop) (λ z. lookup_at_end key s (at_end z))
        | inr x ↦
            run-load_next q i _ x.points
            ∙ run-else _ _ (eq_of_ne x.n.addr st.tail x.not_tail)
            ∙ run (walk fuel st key i q) _ (
                walk-seek fuel h st key i q s m (stop.chains i (omega arith)) stop.nodes stop.sorted
                  stop.fresh stop.short)
            ∙ look-lookup i (seek i key q s s).0 (seek i key q s s).1
                (IsStop-seek h st.tail m fuel i key q s stop) (seek-Below i key q s) ih
            ∙ ap (λ v. ok v h) (seek-lookup i key q s s refl)
      ]

  find_loop-lookup : (i : ℕ) → Finds i
  find_loop-lookup zero q s stop none_left = unfold find_loop in rw (none_left refl)
  find_loop-lookup (suc i) q s stop none_left =
      level-lookup i (find_loop-lookup i) q s stop none_left

-- On a skip list skip_list_find returns what is kept under the key, and NULL if that is nothing,
-- with fuel above the number of entries.
pub skip_list_find-lookup :
    (h : Heap) (st : SkipList) (ns : List Entry) (fuel key : ℕ)
    → IsSkipList h st ns
    → length ns < fuel
    → skip_list_find fuel st key h ≡ ok (lookup key ns) h
unfolding skip_list_find
skip_list_find-lookup h st ns fuel key is short =
    find_loop-lookup h st st.max_level fuel key st.max_level st.head ns
      (record {
        chains = is.chains;
        nodes = is.nodes;
        sorted = is.sorted;
        fresh = is.not_tail;
        short = short;
      })
      (λ z. no-Nodes h st.max_level key ns z is.nodes)
