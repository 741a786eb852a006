-- ===== src/SkipList/Linking.antt =====
-- What linking a node in does to the chains of a skip list and to the entries they stand for.
use timeseries_database.Base.{
  ℕ, ◌≤◌, ◌<◌, ◌≡◌, ◌≢◌, sym, subst, ◌∙◌, some, List, [], ◌∷◌, arith, ltb, lt→ltb, le→ltb,
  if◌then◌else◌,
}
use native.Mathlib.Decide.{dec_lt}
use timeseries_database.NodeHeap.{Ptr, link, Heap}
use timeseries_database.SkipList.Chain.{
  Entry, header, Fresh, Distinct, Below, Descending, Nodes, Chain, end, visit, skip, relocate,
  Absent,
}
use timeseries_database.SkipList.Seek.{seek, seek_enter, seek_pass, seek_here, seek-ne}

-- The entry goes in front of the first key that is not above its own.
unfoldable pub insert_entry : Entry → List Entry → List Entry
insert_entry e [] = e ∷ []
insert_entry e (n ∷ ns) = if ltb e.key n.key then n ∷ insert_entry e ns else e ∷ n ∷ ns

module _ (e n : Entry) (ns : List Entry) where
  insert_past : e.key < n.key → insert_entry e (n ∷ ns) ≡ n ∷ insert_entry e ns
  unfolding insert_entry
  insert_past lt = ground arith

  insert_here : n.key ≤ e.key → insert_entry e (n ∷ ns) ≡ e ∷ n ∷ ns
  unfolding insert_entry
  insert_here le = ground arith

-- At level `j` the heap `g` is `h` with the node `new` linked in behind `w`.
pub record Linked (h g : Heap) (j : ℕ) (new w : Ptr) : Type 0 where
  pub into : g.next w j ≡ link new
  pub out : g.next new j ≡ h.next w j
  pub frame : (a : Ptr) → a ≢ new → a ≢ w → g.next a j ≡ h.next a j

module _ (h g : Heap) (t : Ptr) (j : ℕ) (e : Entry) where
  pub Chain-insert :
      (p : Ptr) (r : List Entry) {ns : List Entry}
      → Chain h t j p ns
      → j ≤ e.level
      → p ≢ e.addr
      → Fresh p ns
      → Fresh e.addr ns
      → Distinct ns
      → Linked h g j e.addr (seek j e.key p r ns).0
      → Chain g t j p (insert_entry e ns)
  Chain-insert p r (end x) high ne fp fe distinct l =
      unfold seek insert_entry in visit high l.into (end (l.out ∙ x))
  Chain-insert p r (visit {n} {ns} le x c) high ne (np, fp) (ne', fe) (fn, distinct) l =
      elim (dec_lt e.key n.key) [
        | yes above ↦
            let l' : Linked h g j e.addr (seek j e.key n.addr ns ns).0 =
              subst (λ w. Linked h g j e.addr w.0) (seek_enter j e.key p r n ns above le) l in
            rw (insert_past e n ns above) (
              visit le (l'.frame p ne (seek-ne j e.key p n.addr ns ns np fp) ∙ x)
                (Chain-insert n.addr ns c high (λ eq. ne' (sym eq)) fn fe distinct l'))
        | no below ↦
            let l' : Linked h g j e.addr p =
              subst (λ w. Linked h g j e.addr w.0) (seek_here j e.key p r n ns (omega arith)) l in
            rw (insert_here e n ns (omega arith)) (
              visit high l'.into (
                visit le (l'.out ∙ x) (
                  relocate e.addr p c (l'.frame n.addr (λ eq. ne' (sym eq)) (λ eq. np (sym eq))) fe
                    fp l'.frame)))
      ]
  Chain-insert p r (skip {n} {ns} lt c) high ne (np, fp) (ne', fe) (fn, distinct) l =
      elim (dec_lt e.key n.key) [
        | yes above ↦
            let l' : Linked h g j e.addr (seek j e.key p r ns).0 =
              subst (λ w. Linked h g j e.addr w.0) (seek_pass j e.key p r n ns above lt) l in
            rw (insert_past e n ns above) (skip lt (Chain-insert p r c high ne fp fe distinct l'))
        | no below ↦
            let l' : Linked h g j e.addr p =
              subst (λ w. Linked h g j e.addr w.0) (seek_here j e.key p r n ns (omega arith)) l in
            rw (insert_here e n ns (omega arith))
              (visit high l'.into (skip lt (relocate e.addr p c l'.out fe fp l'.frame)))
      ]

  -- A level above the new node's does not change.
  pub Chain-over :
      {p : Ptr} {ns : List Entry}
      → Chain h t j p ns
      → e.level < j
      → ((a : Ptr) → a ≢ e.addr → g.next a j ≡ h.next a j)
      → p ≢ e.addr
      → Fresh e.addr ns
      → Chain g t j p (insert_entry e ns)
  Chain-over {p} (end x) low frame ne fe = unfold insert_entry in skip low (end (frame p ne ∙ x))
  Chain-over {p} (visit {n} {ns} le x c) low frame ne (ne', fe) = elim (dec_lt e.key n.key) [
    | yes above ↦
        rw (insert_past e n ns above)
          (visit le (frame p ne ∙ x) (Chain-over c low frame (λ eq. ne' (sym eq)) fe))
    | no below ↦ rw (insert_here e n ns (omega arith)) (
        skip low (
          visit le (frame p ne ∙ x) (
            relocate e.addr e.addr c (frame n.addr (λ eq. ne' (sym eq))) fe fe
              (λ a na _. frame a na))))
  ]
  Chain-over {p} (skip {n} {ns} lt c) low frame ne (ne', fe) = elim (dec_lt e.key n.key) [
    | yes above ↦ rw (insert_past e n ns above) (skip lt (Chain-over c low frame ne fe))
    | no below ↦
        rw (insert_here e n ns (omega arith))
          (skip low (skip lt (relocate e.addr e.addr c (frame p ne) fe fe (λ a na _. frame a na))))
  ]

-- What else there is to a skip list, after the entry is in.
module _ (e : Entry) where
  pub Fresh-insert :
      (a : Ptr) (ns : List Entry) → a ≢ e.addr → Fresh a ns → Fresh a (insert_entry e ns)
  unfolding insert_entry
  Fresh-insert a [] ne fresh = (ne, tt)
  Fresh-insert a (n ∷ ns) ne (ne', fresh) = elim (dec_lt e.key n.key) [
    | yes above ↦ rw (lt→ltb e.key n.key above) (ne', Fresh-insert a ns ne fresh)
    | no below ↦ rw (le→ltb e.key n.key (omega arith)) (ne, (ne', fresh))
  ]

  pub Distinct-insert :
      (ns : List Entry) → Fresh e.addr ns → Distinct ns → Distinct (insert_entry e ns)
  unfolding insert_entry
  Distinct-insert [] fresh distinct = (tt, tt)
  Distinct-insert (n ∷ ns) (ne, fresh) (fn, distinct) = elim (dec_lt e.key n.key) [
    | yes above ↦
        rw (lt→ltb e.key n.key above)
          (Fresh-insert n.addr ns (λ eq. ne (sym eq)) fn, Distinct-insert ns fresh distinct)
    | no below ↦ rw (le→ltb e.key n.key (omega arith)) ((ne, fresh), (fn, distinct))
  ]

  Below-insert : (b : ℕ) (ns : List Entry) → e.key < b → Below b ns → Below b (insert_entry e ns)
  unfolding insert_entry
  Below-insert b [] lt below = lt
  Below-insert b (n ∷ ns) lt below = ground arith

  pub Descending-insert :
      (ns : List Entry) → Absent e.key ns → Descending ns → Descending (insert_entry e ns)
  unfolding insert_entry
  Descending-insert [] absent sorted = (tt, tt)
  Descending-insert (n ∷ ns) (ne, absent) (below, sorted) = elim (dec_lt e.key n.key) [
    | yes above ↦
        rw (lt→ltb e.key n.key above)
          (Below-insert n.key ns above below, Descending-insert ns absent sorted)
    | no under ↦ rw (le→ltb e.key n.key (omega arith)) (omega arith, (below, sorted))
  ]

  pub Nodes-insert :
      (h : Heap) (m : ℕ) (ns : List Entry)
      → h.node e.addr ≡ some (header e)
      → e.level < m
      → Nodes h m ns
      → Nodes h m (insert_entry e ns)
  unfolding insert_entry
  Nodes-insert h m [] at low nodes = (at, low, tt)
  Nodes-insert h m (n ∷ ns) at low (at', low', nodes) = elim (dec_lt e.key n.key) [
    | yes above ↦ rw (lt→ltb e.key n.key above) (at', low', Nodes-insert h m ns at low nodes)
    | no below ↦ rw (le→ltb e.key n.key (omega arith)) (at, low, (at', low', nodes))
  ]
