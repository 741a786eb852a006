-- ===== src/SkipList/Destroy.antt =====
-- `skip_list_destroy` frees every node, and is undefined where the tail's array is not set.
use timeseries_database.Base.{
  ℕ, zero, suc, ◌<◌, ◌≡◌, ◌≢◌, refl, sym, ◌∙◌, ap, Bool, false, ◌||◌, some, none, List, [], ◌∷◌,
  arith, length, ◌==◌, if◌then◌else◌,
}
use timeseries_database.NodeHeap.{
  Ptr, null, ArrayPtr, valid, nil, wild, Header, Heap, fault, ok, put, release, run, run-load_next,
  run-set_next, run-then, run-else, eq_self, eq_of_ne, and_then,
}
use timeseries_database.SkipList.{
  SkipList, destroy_loop, skip_list_destroy, skip_listnode_destroy, free_both,
}
use timeseries_database.SkipList.Chain.{
  Entry, header, Fresh, Distinct, Nodes, Nodes-frame, Chain, end, visit, skip, relocate, IsSkipList,
}
use timeseries_database.SkipList.Insert.{Chain-reads}
use timeseries_database.SkipList.Release.{destroy-release, destroy-free_both}

-- Whether a node stands at the address.
abbrev pub has : Ptr → List Entry → Bool
has a [] = false
has a (n ∷ ns) = (a == n.addr) || has a ns

-- `g` has the nodes of `h` but for those of the list.
abbrev pub Without : List Entry → Heap → Heap → Type 0
Without ns h g = (a : Ptr) → g.node a ≡ (if has a ns then none else h.node a)

module _ (st : SkipList) (m : ℕ) where
  -- The heap after one round of the loop.
  abbrev next_heap : Heap → Entry → Heap
  next_heap h n = release n.addr (put h st.head 0 (h.next n.addr 0))

  next_heap-Chain :
      (h : Heap) (n : Entry) (ns : List Entry)
      → Chain h st.tail 0 n.addr ns
      → st.head ≢ n.addr
      → Fresh st.head ns
      → Fresh n.addr ns
      → Chain (next_heap h n) st.tail 0 st.head ns
  next_heap-Chain h n ns c ne fh fn =
      relocate st.head n.addr c (unfold release put in ground arith) fh fn
        (λ a na nb. unfold release put in ground arith)

  next_heap-Nodes :
      (h : Heap) (n : Entry) (ns : List Entry)
      → Nodes h m ns
      → Fresh n.addr ns
      → Nodes (next_heap h n) m ns
  next_heap-Nodes h n ns nodes fresh =
      Nodes-frame h (next_heap h n) m n.addr ns nodes fresh
        (λ a ne. unfold release put in ground arith)

  Without-∷ :
      (h g : Heap) (n : Entry) (ns : List Entry)
      → Without ns (next_heap h n) g
      → Without (n ∷ ns) h g
  Without-∷ h g n ns gone a = unfold release put in ground (arith, gone a)

  destroy_loop-Without :
      (fuel : ℕ) (h : Heap) (ns : List Entry)
      → Chain h st.tail 0 st.head ns
      → Nodes h m ns
      → Distinct ns
      → Fresh null ns
      → Fresh st.head ns
      → Fresh st.tail ns
      → length ns < fuel
      → (g : Heap) × (destroy_loop fuel st h ≡ ok tt g) × Without ns h g
  unfolding destroy_loop
  destroy_loop-Without zero h ns c nodes distinct not_null not_head not_tail short =
      absurd (omega arith)
  destroy_loop-Without (suc fuel) h _ (end e) nodes distinct not_null not_head not_tail short =
      (h, run-load_next st.head 0 _ e ∙ run-then _ _ (eq_self st.tail), λ a. refl)
  destroy_loop-Without (suc fuel) h _ (skip low c) nodes distinct not_null not_head not_tail short =
      absurd (omega arith)
  destroy_loop-Without (suc fuel) h _ (visit {n} {ns} high e c) (at, low, nodes) (fn, distinct)
        (nn, not_null) (nh, not_head) (nt, not_tail) short =
      let (q, on) = Chain-reads c in
      let (g, runs, gone) =
        destroy_loop-Without fuel (next_heap h n) ns (next_heap-Chain h n ns c nh not_head fn)
          (next_heap-Nodes h n ns nodes fn) distinct not_null not_head not_tail (omega arith) in
      (
        g,
        run-load_next st.head 0 _ e
            ∙ run-else _ _ (eq_of_ne n.addr st.tail (λ eq. nt (sym eq)))
            ∙ run-load_next n.addr 0 _ on
            ∙ run-set_next h st.head 0 q _ (λ x. cc)
            ∙ ap
                (λ l.
                  and_then (skip_listnode_destroy n.addr (put h st.head 0 l))
                    (λ _. destroy_loop fuel st))
                (sym on)
            ∙ run (skip_listnode_destroy n.addr) _ (
                destroy-release n.addr (put h st.head 0 (h.next n.addr 0)) (header n)
                  (λ eq. nn (sym eq)) (unfold put in at) refl)
            ∙ runs,
        Without-∷ h g n ns gone,
      )

-- How the list ends, by the array of its tail.
abbrev pub Destroys : Heap → SkipList → List Entry → ℕ → ArrayPtr → Type 0
Destroys h st ns fuel wild = skip_list_destroy fuel st h ≡ fault
Destroys h st ns fuel _ =
    (g : Heap) × (skip_list_destroy fuel st h ≡ ok tt g)
    × ((a : Ptr)
        → g.node a ≡ (if has a ns || (a == st.head) || (a == st.tail) then none else h.node a))

has-Fresh : (a : Ptr) (ns : List Entry) → Fresh a ns → has a ns ≡ false
has-Fresh a [] fresh = refl
has-Fresh a (n ∷ ns) (ne, fresh) = ground (arith, has-Fresh a ns fresh)

Without-outside :
    (h g : Heap) (ns : List Entry) (a : Ptr) → Without ns h g → Fresh a ns → g.node a ≡ h.node a
Without-outside h g ns a gone fresh =
    gone a ∙ ap (λ b. if b then none else h.node a) (has-Fresh a ns fresh)

released-both :
    (h g : Heap) (ns : List Entry) (p q a : Ptr)
    → Without ns h g
    → (release q (release p g)).node a
      ≡ (if has a ns || (a == p) || (a == q) then none else h.node a)
unfolding release
released-both h g ns p q a gone = ground (arith, gone a)

by_array :
    (h : Heap) (st : SkipList) (ns : List Entry) (fuel : ℕ) (g : Heap) (array : ArrayPtr)
    → Without ns h g
    → skip_list_destroy fuel st h ≡ free_both array st.tail (release st.head g)
    → Destroys h st ns fuel array
by_array h st ns fuel g wild gone e = e
by_array h st ns fuel g valid gone e =
    (release st.tail (release st.head g), e, λ a. released-both h g ns st.head st.tail a gone)
by_array h st ns fuel g nil gone e =
    (release st.tail (release st.head g), e, λ a. released-both h g ns st.head st.tail a gone)

-- Destroying a skip list with at least one level, whose head has an array and whose tail is a
-- node, with fuel above the number of entries. If the tail's array pointer was set to an array or
-- to NULL, it frees the nodes of the entries, the head and the tail, and no other node; if that
-- pointer was never written, freeing it is undefined, and that is what happens.
pub skip_list_destroy_lem :
    (h : Heap) (st : SkipList) (ns : List Entry) (fuel : ℕ) (head tail : Header)
    → IsSkipList h st ns
    → 0 < st.max_level
    → h.node st.head ≡ some head
    → head.array ≡ valid
    → h.node st.tail ≡ some tail
    → st.tail ≢ null
    → length ns < fuel
    → Destroys h st ns fuel tail.array
unfolding skip_list_destroy
skip_list_destroy_lem h st ns fuel head tail is some_level at_head array at_tail not_null short =
    let (g, runs, gone) =
      destroy_loop-Without st st.max_level fuel h ns (is.chains 0 some_level) is.nodes is.distinct
        is.not_null is.not_head is.not_tail short in
    let first : skip_list_destroy fuel st h ≡ free_both tail.array st.tail (release st.head g) =
      run (destroy_loop fuel st) _ runs
      ∙ run (skip_listnode_destroy st.head) _ (
          destroy-release st.head g head is.head_ne_null
            (Without-outside h g ns st.head gone is.not_head ∙ at_head) array)
      ∙ destroy-free_both st.tail (release st.head g) tail not_null (
          unfold release in
          ground
            (arith, Without-outside h g ns st.tail gone is.not_tail, is.head_ne_tail, at_tail)) in
    by_array h st ns fuel g tail.array gone first
