-- ===== src/SkipList/ScanRemove.antt =====
-- The array `update` that `skip_list_remove` fills.
use timeseries_database.Base.{
  ℕ, zero, suc, ◌+◌, ◌<◌, ◌≡◌, refl, sym, ◌∙◌, ap, Bool, false, List, [], ◌∷◌, arith, ◌==◌, length,
  if◌then◌else◌, inl, inr,
}
use timeseries_database.NodeHeap.{
  Ptr, null, Cell, link, Heap, ok, Cmd, ◌>>=◌, load, load_next, eq_self, eq_of_ne, run, run-load,
  run-load_next, run-then, run-else,
}
use timeseries_database.SkipList.{SkipList, walk, scan_remove}
use timeseries_database.SkipList.Chain.{Entry, IsSkipList}
use timeseries_database.SkipList.Seek.{
  seek, seek_resume, IsStop, IsStop-seek, IsStop-lower, walk-seek,
}
use timeseries_database.SkipList.Find.{next_cases}
use timeseries_database.SkipList.Scan.{entries, ok-injective}
use timeseries_database.SkipList.Locate.{find_entry, reaches, Lands, tail, other, hit, seek-Lands}

-- Searching drops no entry under the key.
seek-find_entry :
    (i key : ℕ) (p : Ptr) (r ns : List Entry)
    → find_entry key r ≡ find_entry key ns
    → find_entry key (seek i key p r ns).1 ≡ find_entry key r
unfolding seek find_entry
seek-find_entry i key p r [] same = refl
seek-find_entry i key p r (n ∷ ns) same =
    ground (arith, seek-find_entry i key n.addr ns ns refl, seek-find_entry i key p r ns)

reaches-same :
    (key i : ℕ) (s ns : List Entry)
    → find_entry key s ≡ find_entry key ns
    → reaches key i s ≡ reaches key i ns
unfolding reaches
reaches-same key i s ns e = rw (reaches, e) refl

target : Ptr → Cell → Ptr
target d (link p) = p
target d c = d

link-injective : {p q : Ptr} → link p ≡ link q → p ≡ q
unfolding target
link-injective {p} e = ap (target p) e

-- A stop in front of the tail holds nothing.
Lands-at_tail :
    {h : Heap} {t : Ptr} {key i : ℕ} {w : Ptr} {b : Bool}
    → Lands h t key i w b
    → h.next w i ≡ link t
    → b ≡ false
Lands-at_tail (tail e) at = refl
Lands-at_tail (other a n e ne holds differ) at = refl
Lands-at_tail (hit n e ne holds same) at = absurd (ne (link-injective (sym e ∙ at)))

module _ (h : Heap) (st : SkipList) (fuel key : ℕ) where
  -- What goes into `update` at the node `w`.
  abbrev held : Bool → Ptr → Ptr
  held b w = if b then w else null

  -- The end of a round, at the node `w`.
  abbrev look : ℕ → List Ptr → Ptr → Cmd (List Ptr)
  look i acc w = do
    next ← load_next w i
    if next == st.tail then scan_remove fuel st key i w (null ∷ acc) else do
      n ← load next
      scan_remove fuel st key i w ((if n.key == key then w else null) ∷ acc)

  look-Lands :
      {i : ℕ} {w : Ptr} {b : Bool} (acc : List Ptr)
      → Lands h st.tail key i w b
      → look i acc w h ≡ scan_remove fuel st key i w (held b w ∷ acc) h
  look-Lands {i} {w} acc (tail e) = run-load_next w i _ e ∙ run-then _ _ (eq_self st.tail)
  look-Lands {i} {w} acc (other a n e ne holds differ) =
      run-load_next w i _ e
      ∙ run-else _ _ (eq_of_ne a st.tail ne)
      ∙ run-load a _ holds
      ∙ rw differ refl
  look-Lands {i} {w} acc (hit n e ne holds same) =
      run-load_next w i _ e
      ∙ run-else _ _ (eq_of_ne n.addr st.tail ne)
      ∙ run-load n.addr _ holds
      ∙ rw same refl

  walk-at_tail :
      (f i : ℕ) (q : Ptr) → 0 < f → h.next q i ≡ link st.tail → walk f st key i q h ≡ ok q h
  unfolding walk
  walk-at_tail zero i q some_fuel e = absurd (omega arith)
  walk-at_tail (suc f) i q some_fuel e = run-load_next q i _ e ∙ run-then _ _ (eq_self st.tail)

  -- One level of the scan: whether or not the code enters the walk, it is left where the walk ends.
  scan_level :
      (m i : ℕ) (q w : Ptr) (s : List Entry) (b : Bool) (acc : List Ptr)
      → IsStop h st.tail m fuel (suc i) q s
      → walk fuel st key i q h ≡ ok w h
      → Lands h st.tail key i w b
      → scan_remove fuel st key (suc i) q acc h ≡ scan_remove fuel st key i w (held b w ∷ acc) h
  unfolding scan_remove
  scan_level m i q w s b acc stop walked lands =
      elim (next_cases m (stop.chains i (omega arith)) stop.nodes stop.sorted stop.fresh) [
        | inl (e, at_end) ↦
            let stays : q ≡ w =
              ok-injective (sym (walk-at_tail fuel i q (omega (arith, stop.short)) e) ∙ walked) in
            run-load_next q i _ e
            ∙ run-then _ _ (eq_self st.tail)
            ∙ ap (λ v. scan_remove fuel st key i v (null ∷ acc) h) stays
            ∙ ap (λ c. scan_remove fuel st key i w (held c w ∷ acc) h)
                (sym (Lands-at_tail lands (ap (λ v. h.next v i) (sym stays) ∙ e)))
        | inr x ↦
            run-load_next q i _ x.points
            ∙ run-else _ _ (eq_of_ne x.n.addr st.tail x.not_tail)
            ∙ run (walk fuel st key i q) _ walked
            ∙ look-Lands acc lands
      ]

  -- The node before the key at level `j`, and what the scan puts into `update` for it.
  abbrev pub stop_at : List Entry → ℕ → Ptr
  stop_at ns j = (seek j key st.head ns ns).0

  abbrev pub update_at : List Entry → ℕ → Ptr
  update_at ns j = held (reaches key j ns) (stop_at ns j)

  scan_remove-entries :
      (i n m : ℕ) (q : Ptr) (s ns : List Entry)
      → IsStop h st.tail m fuel i q s
      → find_entry key s ≡ find_entry key ns
      → ((j : ℕ) → i ≡ suc j → seek j key q s s ≡ seek j key st.head ns ns)
      → scan_remove fuel st key i q (entries (update_at ns) i n) h
        ≡ ok (entries (update_at ns) 0 (i + n)) h
  unfolding entries
  scan_remove-entries zero n m q s ns stop found same =
      unfold scan_remove in ap (λ k. ok (entries (update_at ns) 0 k) h) (omega arith)
  scan_remove-entries (suc i) n m q s ns stop found same =
      scan_level m i q w s (reaches key i s) (entries (update_at ns) (suc i) n) stop walked lands
      ∙ ap (λ v. scan_remove fuel st key i w (v ∷ entries (update_at ns) (suc i) n) h) at_w
      ∙ scan_remove-entries i (suc n) m w (seek i key q s s).1 ns (IsStop-lower ahead)
          (seek-find_entry i key q s s refl ∙ found)
          (λ j e.
            ap (λ x. seek j key x.0 x.1 x.1) (same i refl)
            ∙ rw e (seek_resume j key ns st.head ns st.head ns refl))
      ∙ ap (λ k. ok (entries (update_at ns) 0 k) h) (omega arith)
    where
      w : Ptr
      w = (seek i key q s s).0

      at_w : held (reaches key i s) w ≡ update_at ns i
      at_w =
          ap (λ b. held b w) (reaches-same key i s ns found)
          ∙ ap (λ x. held (reaches key i ns) x.0) (same i refl)

      ahead : IsStop h st.tail m fuel (suc i) (seek i key q s s).0 (seek i key q s s).1
      ahead = IsStop-seek h st.tail m fuel i key q s stop

      walked : walk fuel st key i q h ≡ ok w h
      walked =
          walk-seek fuel h st key i q s m (stop.chains i (omega arith)) stop.nodes stop.sorted
            stop.fresh stop.short

      lands : Lands h st.tail key i w (reaches key i s)
      lands = seek-Lands key m s (stop.chains i (omega arith)) stop.nodes stop.sorted stop.fresh

  -- `skip_list_remove` fills `update` with the nodes before the entry, at the levels that it
  -- reaches, and with NULL above.
  pub scan_remove_lem :
      (ns : List Entry)
      → IsSkipList h st ns
      → length ns < fuel
      → scan_remove fuel st key st.max_level st.head [] h
        ≡ ok (entries (update_at ns) 0 st.max_level) h
  scan_remove_lem ns is short =
      unfold entries in
      scan_remove-entries st.max_level 0 st.max_level st.head ns ns
        (record {
          chains = is.chains;
          nodes = is.nodes;
          sorted = is.sorted;
          fresh = is.not_tail;
          short = short;
        })
        refl (λ j e. refl)
      ∙ ap (λ k. ok (entries (update_at ns) 0 k) h) (omega arith)
