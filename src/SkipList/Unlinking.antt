-- ===== src/SkipList/Unlinking.antt =====
-- What unlinking a node does to the chains of a skip list and to the entries they stand for.
use timeseries_database.Base.{
  ℕ, ◌≤◌, ◌<◌, ◌≡◌, ◌≢◌, sym, ap, subst, ◌∙◌, some, List, [], ◌∷◌, arith,
}
use native.Mathlib.Decide.{dec_le}
use timeseries_database.NodeHeap.{Ptr, link, Heap}
use timeseries_database.SkipList.Chain.{
  Entry, Fresh, Distinct, Descending, Chain, end, visit, skip, relocate,
}
use timeseries_database.SkipList.Seek.{seek, seek_enter, seek_pass, seek_here, seek-ne}
use timeseries_database.SkipList.Insert.{Chain-reads}
use timeseries_database.SkipList.Removal.{first, later, split, member-ne}
use timeseries_database.SkipList.Locate.{find_entry, remove_entry, remove_here, remove_past}

-- At level `j` the heap `g` is `h` with the node `old` taken out behind `w`; nothing is said of
-- `old` itself.
pub record Unlinked (h g : Heap) (j : ℕ) (old w : Ptr) : Type 0 where
  pub into : g.next w j ≡ h.next old j
  pub frame : (a : Ptr) → a ≢ old → a ≢ w → g.next a j ≡ h.next a j

-- The search does not stop at the entry.
pub seek-ne_entry :
    (j key : ℕ) (e : Entry) (p : Ptr) (r ns : List Entry)
    → p ≢ e.addr
    → find_entry key ns ≡ some e
    → Descending ns
    → Distinct ns
    → e.addr ≢ (seek j key p r ns).0
seek-ne_entry j key e p r [] ne found sorted distinct = unfold find_entry in cc
seek-ne_entry j key e p r (n ∷ ns) ne found (below, sorted) (fn, distinct) =
    elim (split key e n ns below sorted found) [
      | first same at ↦ rw (seek_here j key p r n ns (omega arith)) (λ eq. ne (sym eq))
      | later above found' ↦ elim (dec_le j n.level) [
        | yes high ↦ rw (seek_enter j key p r n ns above high) (
            seek-ne_entry j key e n.addr ns ns (member-ne key e n.addr ns found' fn) found' sorted
              distinct)
        | no low ↦
            rw (seek_pass j key p r n ns above (omega arith))
              (seek-ne_entry j key e p r ns ne found' sorted distinct)
      ]
    ]

-- At a level that the entry reaches, the search stops right before it, and it is linked on.
pub entry-links :
    {h : Heap} {t : Ptr} {j : ℕ} (key : ℕ) (e : Entry) {p : Ptr} (r : List Entry) {ns : List Entry}
    → Chain h t j p ns
    → j ≤ e.level
    → find_entry key ns ≡ some e
    → Descending ns
    → (h.next (seek j key p r ns).0 j ≡ link e.addr) × (q : Ptr) × (h.next e.addr j ≡ link q)
entry-links key e r (end x) high found sorted = unfold find_entry in cc
entry-links {h} {t} {j} key e {p} r (visit {n} {ns} le x c) high found (below, sorted) =
    elim (split key e n ns below sorted found) [
      | first same at ↦ rw (seek_here j key p r n ns (omega arith)) (
          subst (λ m. (h.next p j ≡ link m.addr) × (q : Ptr) × (h.next m.addr j ≡ link q)) same
            (let (q, y) = Chain-reads c in (x, q, y)))
      | later above found' ↦
          rw (seek_enter j key p r n ns above le) (entry-links key e ns c high found' sorted)
    ]
entry-links {h} {t} {j} key e {p} r (skip {n} {ns} lt c) high found (below, sorted) =
    elim (split key e n ns below sorted found) [
      | first same at ↦ absurd (omega (arith, ap (λ m. m.level) same))
      | later above found' ↦
          rw (seek_pass j key p r n ns above lt) (entry-links key e r c high found' sorted)
    ]

module _ (h g : Heap) (t : Ptr) (j key : ℕ) (e : Entry) where
  pub Chain-remove :
      (p : Ptr) (r : List Entry) {ns : List Entry}
      → Chain h t j p ns
      → j ≤ e.level
      → find_entry key ns ≡ some e
      → Descending ns
      → Fresh p ns
      → Distinct ns
      → Unlinked h g j e.addr (seek j key p r ns).0
      → Chain g t j p (remove_entry key ns)
  Chain-remove p r (end x) high found sorted fp distinct u = unfold find_entry in cc
  Chain-remove p r (visit {n} {ns} le x c) high found (below, sorted) (np, fp) (fn, distinct) u =
      elim (split key e n ns below sorted found) [
        | first same at ↦
            let u' : Unlinked h g j n.addr p =
              subst (λ w. Unlinked h g j w p) (ap (λ m. m.addr) (sym same))
                (subst (λ w. Unlinked h g j e.addr w.0) (seek_here j key p r n ns (omega arith))
                  u) in
            rw (remove_here key n ns at) (relocate n.addr p c u'.into fn fp u'.frame)
        | later above found' ↦
            let u' : Unlinked h g j e.addr (seek j key n.addr ns ns).0 =
              subst (λ w. Unlinked h g j e.addr w.0) (seek_enter j key p r n ns above le) u in
            rw (remove_past key n ns (omega arith)) (
              visit le
                (u'.frame p (member-ne key e p ns found' fp) (seek-ne j key p n.addr ns ns np fp)
                  ∙ x)
                (Chain-remove n.addr ns c high found' sorted fn distinct u'))
      ]
  Chain-remove p r (skip {n} {ns} lt c) high found (below, sorted) (np, fp) (fn, distinct) u =
      elim (split key e n ns below sorted found) [
        | first same at ↦ absurd (omega (arith, ap (λ m. m.level) same))
        | later above found' ↦
            let u' : Unlinked h g j e.addr (seek j key p r ns).0 =
              subst (λ w. Unlinked h g j e.addr w.0) (seek_pass j key p r n ns above lt) u in
            rw (remove_past key n ns (omega arith))
              (skip lt (Chain-remove p r c high found' sorted fp distinct u'))
      ]

  -- A level above the node's does not change.
  pub Chain-above :
      {p : Ptr} {ns : List Entry}
      → Chain h t j p ns
      → e.level < j
      → find_entry key ns ≡ some e
      → Descending ns
      → Fresh p ns
      → Distinct ns
      → ((a : Ptr) → a ≢ e.addr → g.next a j ≡ h.next a j)
      → Chain g t j p (remove_entry key ns)
  Chain-above (end x) low found sorted fp distinct frame = unfold find_entry in cc
  Chain-above {p} (visit {n} {ns} le x c) low found (below, sorted) (np, fp) (fn, distinct) frame =
      elim (split key e n ns below sorted found) [
        | first same at ↦ absurd (omega (arith, ap (λ m. m.level) same))
        | later above found' ↦ rw (remove_past key n ns (omega arith)) (
            visit le (frame p (member-ne key e p ns found' fp) ∙ x)
              (Chain-above c low found' sorted fn distinct frame))
      ]
  Chain-above {p} (skip {n} {ns} lt c) low found (below, sorted) (np, fp) (fn, distinct) frame =
      elim (split key e n ns below sorted found) [
        | first same at ↦
            let fe : Fresh e.addr ns = subst (λ m. Fresh m.addr ns) same fn in
            rw (remove_here key n ns at) (
              relocate e.addr e.addr c (frame p (λ eq. np (eq ∙ ap (λ m. m.addr) (sym same)))) fe fe
                (λ a na _. frame a na))
        | later above found' ↦
            rw (remove_past key n ns (omega arith))
              (skip lt (Chain-above c low found' sorted fp distinct frame))
      ]
