-- ===== src/SkipList/Remove.antt =====
-- `skip_list_remove` keeps a skip list, and takes the entry out of it.
use timeseries_database.Base.{
  ℕ, suc, ◌≤◌, ◌<◌, ◌≡◌, ◌≢◌, refl, sym, ap, ◌∙◌, inr, true, false, Option, some, none, List, [],
  arith, length, ◌==◌, if◌then◌else◌, subst, leb, Option-cases, inl,
}
use native.Mathlib.Decide.{dec_le}
use timeseries_database.NodeHeap.{Ptr, null, Heap, ok, release, run, run-else, eq_of_ne}
use timeseries_database.SkipList.{
  SkipList, done, failed, skip_list_remove, scan_remove, unlink, skip_listnode_destroy,
}
use timeseries_database.SkipList.Chain.{Entry, header, Fresh, Nodes-frame, IsSkipList}
use timeseries_database.SkipList.Seek.{seek, seek-ne}
use timeseries_database.SkipList.Scan.{entries}
use timeseries_database.SkipList.Locate.{find_entry, remove_entry, reaches_absent, reaches_found}
use timeseries_database.SkipList.ScanRemove.{update_at, scan_remove_lem}
use timeseries_database.SkipList.Unlink.{
  unlinked, unlinked-node, unlinked-outside, unlinked-inside, unlink-null, unlink-unlinked,
}
use timeseries_database.SkipList.Unlinking.{
  Unlinked, seek-ne_entry, entry-links, Chain-remove, Chain-above,
}
use timeseries_database.SkipList.Removal.{
  member-ne, Fresh-remove, Distinct-remove, Descending-remove, Nodes-remove, Fresh-removed,
  Nodes-find,
}
use timeseries_database.SkipList.Release.{destroy-release}

module _ (h : Heap) (st : SkipList) (fuel key : ℕ) (ns : List Entry) (is : IsSkipList h st ns)
    (short : length ns < fuel) where
  abbrev stop : ℕ → Ptr
  stop j = (seek j key st.head ns ns).0

  abbrev update : ℕ → Ptr
  update = update_at h st fuel key ns

  scanned : scan_remove fuel st key st.max_level st.head [] h ≡ ok (entries update 0 st.max_level) h
  scanned = scan_remove_lem h st fuel key ns is short

  -- Nothing is kept under the key.
  remove-absent : find_entry key ns ≡ none → skip_list_remove fuel st key h ≡ ok failed h
  unfolding skip_list_remove
  remove-absent gone =
      run (scan_remove fuel st key st.max_level st.head []) _ scanned
      ∙ run (unlink 0 (entries update 0 st.max_level) null) _ (
          unlink-null update 0 st.max_level null h
            (λ j _. ap (λ b. if b then stop j else null) (reaches_absent key j ns gone)))

  module _ (e : Entry) (found : find_entry key ns ≡ some e) where
    abbrev without : Heap
    without = unlinked e.addr update 0 (suc e.level) h

    abbrev removed : Heap
    removed = release e.addr without

    at_entry : (h.node e.addr ≡ some (header e)) × (e.level < st.max_level)
    at_entry = Nodes-find h st.max_level key e ns is.nodes found

    stop-ne : (j : ℕ) (a : Ptr) → a ≢ st.head → Fresh a ns → a ≢ stop j
    stop-ne j a ne fresh = seek-ne j key a st.head ns ns ne fresh

    released : (a : Ptr) (j : ℕ) → a ≢ e.addr → removed.next a j ≡ without.next a j
    released a j ne = unfold release in ground arith

    stop-ne_entry : (j : ℕ) → e.addr ≢ stop j
    stop-ne_entry j =
        seek-ne_entry j key e st.head ns ns (member-ne key e st.head ns found is.not_head) found
          is.sorted is.distinct

    update-here : (j : ℕ) → j ≤ e.level → update j ≡ stop j
    update-here j le =
        let high : leb j e.level ≡ true = ground arith in
        ap (λ b. if b then stop j else null) (reaches_found key j e ns found ∙ high)

    update-over : (j : ℕ) → e.level < j → update j ≡ null
    update-over j lt =
        let low : leb j e.level ≡ false = ground arith in
        ap (λ b. if b then stop j else null) (reaches_found key j e ns found ∙ low)

    unlink-without : unlink 0 (entries update 0 st.max_level) null h ≡ ok e.addr without
    unlink-without =
        unlink-unlinked e.addr update 0 st.max_level (suc e.level) null h
          (omega (arith, at_entry.1))
          (λ j _ lt.
            let here = update-here j (omega arith) in
            let links =
              entry-links key e ns (is.chains j (omega (arith, at_entry.1))) (omega arith) found
                is.sorted in
            (
              (λ eq.
                  stop-ne j null (λ z. is.head_ne_null (sym z)) is.not_null (sym (sym here ∙ eq))),
              ap (λ w. h.next w j) here ∙ links.0,
              links.1,
              links.2,
            ))
          (λ j over. update-over j (omega arith))
        ∙ ap (λ p. ok p without) (ground arith)

    -- A cell of level `j` after the loop.
    without-next :
        (j : ℕ) (a : Ptr)
        → j ≤ e.level
        → without.next a j ≡ (if a == stop j then h.next e.addr j else h.next a j)
    without-next j a le =
        unlinked-inside e.addr update 0 (suc e.level) j h a (omega arith) (omega arith)
        ∙ ap (λ w. if a == w then h.next e.addr j else h.next a j) (update-here j le)

    stop-Unlinked : (j : ℕ) → j ≤ e.level → Unlinked h removed j e.addr (stop j)
    stop-Unlinked j le = record {
      into =
          released (stop j) j (λ eq. stop-ne_entry j (sym eq))
          ∙ without-next j (stop j) le
          ∙ ground arith;
      frame = λ a old at. released a j old ∙ without-next j a le ∙ ground arith;
    }

    above-same : (j : ℕ) (a : Ptr) → e.level < j → a ≢ e.addr → removed.next a j ≡ h.next a j
    above-same j a lt ne =
        released a j ne ∙ unlinked-outside e.addr update 0 (suc e.level) j h a (inr (omega arith))

    removed-node : (a : Ptr) → a ≢ e.addr → removed.node a ≡ h.node a
    removed-node a ne =
        unfold release in ground (arith, unlinked-node e.addr update 0 (suc e.level) h a)

    removed-IsSkipList : IsSkipList removed st (remove_entry key ns)
    removed-IsSkipList = record {
      nodes =
          Nodes-frame h removed st.max_level e.addr (remove_entry key ns)
            (Nodes-remove key h st.max_level ns is.nodes) (Fresh-removed key e ns found is.distinct)
            removed-node;
      sorted = Descending-remove key ns is.sorted;
      distinct = Distinct-remove key ns is.distinct;
      not_null = Fresh-remove key null ns is.not_null;
      not_head = Fresh-remove key st.head ns is.not_head;
      not_tail = Fresh-remove key st.tail ns is.not_tail;
      head_ne_tail = is.head_ne_tail;
      head_ne_null = is.head_ne_null;
      chains = λ j lt. elim (dec_le j e.level) [
        | yes le ↦
            Chain-remove h removed st.tail j key e st.head ns (is.chains j lt) le found is.sorted
              is.not_head is.distinct (stop-Unlinked j le)
        | no over ↦
            Chain-above h removed st.tail j key e (is.chains j lt) (omega arith) found is.sorted
              is.not_head is.distinct (λ a ne. above-same j a (omega arith) ne)
      ];
    }

    not_null : e.addr ≢ null
    not_null eq = member-ne key e null ns found is.not_null (sym eq)

    destroyed : skip_listnode_destroy e.addr without ≡ ok tt removed
    destroyed =
        destroy-release e.addr without (header e) not_null
          (unlinked-node e.addr update 0 (suc e.level) h e.addr ∙ at_entry.0) refl

    remove-removed : skip_list_remove fuel st key h ≡ ok done removed
    unfolding skip_list_remove
    remove-removed =
        run (scan_remove fuel st key st.max_level st.head []) _ scanned
        ∙ run (unlink 0 (entries update 0 st.max_level) null) _ unlink-without
        ∙ run-else _ _ (eq_of_ne e.addr null not_null)
        ∙ run (skip_listnode_destroy e.addr) _ destroyed

-- What the removal of a key does, by what is kept under it.
abbrev pub Removes : Heap → SkipList → List Entry → (fuel key : ℕ) → Option Entry → Type 0
Removes h st ns fuel key none = skip_list_remove fuel st key h ≡ ok failed h
Removes h st ns fuel key (some e) =
    (g : Heap) × (skip_list_remove fuel st key h ≡ ok done g)
    × IsSkipList g st (remove_entry key ns)
    × (g.node e.addr ≡ none)
    × ((a : Ptr) → a ≢ e.addr → g.node a ≡ h.node a)

-- Removing a key from a skip list, with fuel above the number of entries. Without an entry under
-- the key, it returns -1 and the heap is as before. Otherwise it returns 0 and leaves a skip list
-- without that entry, the others in their order; the entry's node is freed, and nothing else on
-- the heap is freed or gets another header.
pub skip_list_remove_lem :
    (h : Heap) (st : SkipList) (ns : List Entry) (fuel key : ℕ)
    → IsSkipList h st ns
    → length ns < fuel
    → Removes h st ns fuel key (find_entry key ns)
skip_list_remove_lem h st ns fuel key is short = elim (Option-cases (find_entry key ns)) [
  | inl gone ↦
      subst (Removes h st ns fuel key) (sym gone) (remove-absent h st fuel key ns is short gone)
  | inr (e, found) ↦ subst (Removes h st ns fuel key) (sym found) (
    removed h st fuel key ns is short e found,
    remove-removed h st fuel key ns is short e found,
    removed-IsSkipList h st fuel key ns is short e found,
    unfold release in ground arith,
    λ a ne. removed-node h st fuel key ns is short e found a ne,
  )
]
