-- ===== src/SkipList/Scan.antt =====
-- The array `update` that `skip_list_insert` fills.
use timeseries_database.Base.{
  ℕ, zero, suc, ◌+◌, ◌≤◌, ◌<◌, ◌≡◌, ◌≢◌, refl, sym, ◌∙◌, ap, inl, inr, true, some, List, [], ◌∷◌,
  arith, ltb, length, Bool-cases, lt→ltb, le→ltb, ltb→lt,
}
use native.Mathlib.Decide.{dec_lt}
use timeseries_database.NodeHeap.{
  Ptr, link, Header, Heap, Outcome, ok, run, run-load, run-load_next, run-then, run-else, eq_of_ne,
}
use timeseries_database.SkipList.{SkipList, walk_insert, scan_insert}
use timeseries_database.SkipList.Chain.{
  Entry, header, Fresh, Descending, Nodes, Chain, end, visit, skip, IsSkipList,
}
use timeseries_database.SkipList.Seek.{
  seek, seek_enter, seek_pass, seek_here, seek_stop, seek-ne, seek_resume, IsStop, IsStop-seek,
  IsStop-lower,
}
use timeseries_database.SkipList.Find.{next_cases}

-- `u i ∷ u (i + 1) ∷ …`, `n` of them.
unfoldable pub entries : (ℕ → Ptr) → ℕ → ℕ → List Ptr
entries u i zero = []
entries u i (suc n) = u i ∷ entries u (suc i) n

result : {A : Type 0} → A → Outcome A → A
result d (ok a h) = a
result d r = d

pub ok-injective : {A : Type 0} {a b : A} {h : Heap} → ok a h ≡ ok b h → a ≡ b
unfolding result
ok-injective {a} e = ap (result a) e

-- The pointer of level `i` at `q` leads to a node that can be read.
record Reads (h : Heap) (q : Ptr) (i : ℕ) : Type 0 where
  next : Ptr
  n : Header
  points : h.next q i ≡ link next
  holds : h.node next ≡ some n

module _ (h : Heap) (st : SkipList) (key : ℕ) (tail : Header) (at_tail : h.node st.tail ≡ some tail)
    (low_tail : tail.key ≤ key) where
  -- The walk of `skip_list_insert` stops where the search does, if the key in the tail's memory is
  -- not above the key that is inserted.
  pub walk_insert-seek :
      (fuel i : ℕ) (p : Ptr) (r : List Entry) {ns : List Entry} (m : ℕ)
      → Chain h st.tail i p ns
      → Nodes h m ns
      → Descending ns
      → Fresh st.tail ns
      → p ≢ st.tail
      → length ns < fuel
      → walk_insert fuel st key i p h ≡ ok (seek i key p r ns).0 h
  unfolding walk_insert
  walk_insert-seek zero i p r m c nodes sorted fresh ne lt = absurd (omega arith)
  walk_insert-seek (suc fuel) i p r m (end e) nodes sorted fresh ne lt =
      run-else _ _ (eq_of_ne p st.tail ne)
      ∙ run-load_next p i _ e
      ∙ run-load st.tail _ at_tail
      ∙ run-else _ _ (le→ltb key tail.key low_tail)
      ∙ unfold seek in refl
  walk_insert-seek (suc fuel) i p r m (visit {n} {ns} high e c) (at, low, nodes) (below, sorted)
        (ne', fresh) ne lt =
      run-else _ _ (eq_of_ne p st.tail ne)
      ∙ run-load_next p i _ e
      ∙ run-load n.addr _ at
      ∙ elim (dec_lt key n.key) [
        | yes above ↦
            run-then _ _ (lt→ltb key n.key above)
            ∙ walk_insert-seek fuel i n.addr ns m c nodes sorted fresh (λ eq. ne' (sym eq))
                (omega arith)
            ∙ ap (λ x. ok x.0 h) (sym (seek_enter i key p r n ns above high))
        | no le ↦
            run-else _ _ (le→ltb key n.key (omega arith))
            ∙ ap (λ x. ok x.0 h) (sym (seek_here i key p r n ns (omega arith)))
      ]
  walk_insert-seek (suc fuel) i p r m (skip {n} {ns} low c) (at, lo, nodes) (below, sorted)
        (ne', fresh) ne lt =
      walk_insert-seek (suc fuel) i p r m c nodes sorted fresh ne (omega arith)
      ∙ elim (dec_lt key n.key) [
        | yes above ↦ ap (λ x. ok x.0 h) (sym (seek_pass i key p r n ns above low))
        | no le ↦
            ap (λ x. ok x.0 h)
              (seek_stop i key p r ns n.key below (omega arith)
                ∙ sym (seek_here i key p r n ns (omega arith)))
      ]

  -- One level of the scan: whether or not the code enters the walk, it is left where the walk ends.
  scan_level :
      (f i : ℕ) (q next w : Ptr) (n : Header) (acc : List Ptr)
      → q ≢ st.tail
      → h.next q i ≡ link next
      → h.node next ≡ some n
      → walk_insert (suc f) st key i q h ≡ ok w h
      → scan_insert (suc f) st key (suc i) q acc h ≡ scan_insert (suc f) st key i w (w ∷ acc) h
  unfolding scan_insert
  scan_level f i q next w n acc ne points holds walked =
      run-else _ _ (eq_of_ne q st.tail ne)
      ∙ run-load_next q i _ points
      ∙ run-load next _ holds
      ∙ elim (Bool-cases (ltb n.key key)) [
        | inl below ↦
            run-then _ _ below
            ∙ ap (λ v. scan_insert (suc f) st key i v (v ∷ acc) h)
                (ok-injective (sym (stays below) ∙ walked))
        | inr above ↦ run-else _ _ above ∙ run (walk_insert (suc f) st key i q) _ walked
      ]
    where
      stays : ltb n.key key ≡ true → walk_insert (suc f) st key i q h ≡ ok q h
      stays below =
          unfold walk_insert in
          run-else _ _ (eq_of_ne q st.tail ne)
          ∙ run-load_next q i _ points
          ∙ run-load next _ holds
          ∙ run-else _ _ (le→ltb key n.key (omega (arith, ltb→lt n.key key below)))

  stop-Reads :
      {fuel i : ℕ} {q : Ptr} {s : List Entry} (m : ℕ)
      → IsStop h st.tail m fuel (suc i) q s
      → Reads h q i
  stop-Reads {i} m stop =
      elim (next_cases m (stop.chains i (omega arith)) stop.nodes stop.sorted stop.fresh) [
        | inl (e, at_end) ↦ record { next = st.tail; n = tail; points = e; holds = at_tail }
        | inr x ↦ record { next = x.n.addr; n = header x.n; points = x.points; holds = x.holds }
      ]

  -- The node before the key at level `i`.
  abbrev pub before : List Entry → ℕ → Ptr
  before ns i = (seek i key st.head ns ns).0

  scan_insert-entries :
      (f i n m : ℕ) (q : Ptr) (s ns : List Entry)
      → IsStop h st.tail m (suc f) i q s
      → q ≢ st.tail
      → ((j : ℕ) → i ≡ suc j → seek j key q s s ≡ seek j key st.head ns ns)
      → scan_insert (suc f) st key i q (entries (before ns) i n) h
        ≡ ok (entries (before ns) 0 (i + n)) h
  unfolding entries
  scan_insert-entries f zero n m q s ns stop ne same =
      unfold scan_insert in ap (λ k. ok (entries (before ns) 0 k) h) (omega arith)
  scan_insert-entries f (suc i) n m q s ns stop ne same =
      scan_level f i q (reads.next) w reads.n (entries (before ns) (suc i) n) ne reads.points
        reads.holds walked
      ∙ ap (λ v. scan_insert (suc f) st key i w (v ∷ entries (before ns) (suc i) n) h) at_w
      ∙ scan_insert-entries f i (suc n) m w (seek i key q s s).1 ns (IsStop-lower ahead)
          (λ eq. seek-ne i key st.tail q s s (λ e. ne (sym e)) stop.fresh (sym eq))
          (λ j e.
            ap (λ x. seek j key x.0 x.1 x.1) (same i refl)
            ∙ rw e (seek_resume j key ns st.head ns st.head ns refl))
      ∙ ap (λ k. ok (entries (before ns) 0 k) h) (omega arith)
    where
      w : Ptr
      w = (seek i key q s s).0

      at_w : w ≡ before ns i
      at_w = ap (λ x. x.0) (same i refl)

      ahead : IsStop h st.tail m (suc f) (suc i) (seek i key q s s).0 (seek i key q s s).1
      ahead = IsStop-seek h st.tail m (suc f) i key q s stop

      reads : Reads h q i
      reads = stop-Reads m stop

      walked : walk_insert (suc f) st key i q h ≡ ok w h
      walked =
          walk_insert-seek (suc f) i q s m (stop.chains i (omega arith)) stop.nodes stop.sorted
            stop.fresh ne stop.short

  -- `skip_list_insert` fills `update` with the nodes before the key, level by level.
  pub scan_insert_lem :
      (fuel : ℕ) (ns : List Entry)
      → IsSkipList h st ns
      → length ns < fuel
      → scan_insert fuel st key st.max_level st.head [] h
        ≡ ok (entries (before ns) 0 st.max_level) h
  scan_insert_lem zero ns is short = absurd (omega arith)
  scan_insert_lem (suc f) ns is short =
      unfold entries in
      scan_insert-entries f st.max_level 0 st.max_level st.head ns ns
        (record {
          chains = is.chains;
          nodes = is.nodes;
          sorted = is.sorted;
          fresh = is.not_tail;
          short = short;
        })
        is.head_ne_tail (λ j e. refl)
      ∙ ap (λ k. ok (entries (before ns) 0 k) h) (omega arith)
