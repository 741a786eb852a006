-- ===== src/SkipList/Seek.antt =====
-- Where the walk along a level for a key stops, as a function on the list of entries.
use timeseries_database.Base.{
  ℕ, zero, suc, ◌≤◌, ◌<◌, ◌≡◌, ◌≢◌, refl, sym, ◌∙◌, List, [], ◌∷◌, arith, ltb, leb, length,
  if◌then◌else◌,
}
use native.Mathlib.Decide.{dec_lt, dec_le}
use timeseries_database.NodeHeap.{Ptr, null, Heap, ok, load, load_next}
use timeseries_database.SkipList.{SkipList, walk}
use timeseries_database.SkipList.Chain.{
  Entry, Fresh, Below, Descending, Nodes, Chain, end, visit, skip, lookup,
}

-- The last node as high as level `i` with a key above `key`, with what follows it: from the node
-- `p` that `r` follows, along `ns`.
unfoldable pub seek : ℕ → ℕ → Ptr → List Entry → List Entry → Ptr × List Entry
seek i key p r [] = (p, r)
seek i key p r (n ∷ ns) =
    let past =
      seek i key (if leb i n.level then n.addr else p) (if leb i n.level then ns else r) ns in
    if ltb key n.key then past else (p, r)

pub seek_stop :
    (i key : ℕ) (p : Ptr) (r ns : List Entry) (b : ℕ)
    → Below b ns
    → b ≤ key
    → seek i key p r ns ≡ (p, r)
unfolding seek
seek_stop i key p r [] b h le = refl
seek_stop i key p r (n ∷ ns) b h le = ground arith

-- The stop is `p` or a node.
pub seek-ne :
    (i key : ℕ) (x p : Ptr) (r ns : List Entry) → x ≢ p → Fresh x ns → x ≢ (seek i key p r ns).0
unfolding seek
seek-ne i key x p r [] ne fresh = ne
seek-ne i key x p r (n ∷ ns) ne (ne', fresh) =
    ground (arith, seek-ne i key x p r ns ne fresh, seek-ne i key x n.addr ns ns ne' fresh)

-- The three cases of a step.
module _ (i key : ℕ) (p : Ptr) (r : List Entry) (n : Entry) (ns : List Entry) where
  pub seek_enter : key < n.key → i ≤ n.level → seek i key p r (n ∷ ns) ≡ seek i key n.addr ns ns
  unfolding seek
  seek_enter above high = ground arith

  pub seek_pass : key < n.key → n.level < i → seek i key p r (n ∷ ns) ≡ seek i key p r ns
  unfolding seek
  seek_pass above low = ground arith

  pub seek_here : n.key ≤ key → seek i key p r (n ∷ ns) ≡ (p, r)
  unfolding seek
  seek_here le = ground arith

-- A search at one level goes on from where the search a level above it stopped.
pub seek_resume :
    (i key : ℕ) (ns : List Entry) (p : Ptr) (r : List Entry) (p' : Ptr) (r' : List Entry)
    → seek i key p r r ≡ seek i key p' r' ns
    → let (q, s) = seek (suc i) key p r ns in seek i key q s s ≡ seek i key p r r
seek_resume i key [] p r p' r' e = unfold seek in refl
seek_resume i key (n ∷ ns) p r p' r' e = elim (dec_lt key n.key) [
  | no h ↦ rw (seek_here (suc i) key p r n ns (omega arith))
  | yes above ↦ elim (dec_lt i n.level) [
    | yes high ↦ rw (seek_enter (suc i) key p r n ns above high) (
        seek_resume i key ns n.addr ns n.addr ns refl
        ∙ sym (e ∙ seek_enter i key p' r' n ns above (omega arith)))
    | no h ↦ rw (seek_pass (suc i) key p r n ns above (omega arith)) (elim (dec_le i n.level) [
      | yes high ↦ seek_resume i key ns p r n.addr ns (e ∙ seek_enter i key p' r' n ns above high)
      | no h' ↦ seek_resume i key ns p r p' r' (e ∙ seek_pass i key p' r' n ns above (omega arith))
    ])
  ]
]

-- At the node `q`, which `s` follows, the chains of the `c` lowest levels go on through `s`.
pub record IsStop (h : Heap) (t : Ptr) (m fuel c : ℕ) (q : Ptr) (s : List Entry) : Type 0 where
  pub chains : (j : ℕ) → j < c → Chain h t j q s
  pub nodes : Nodes h m s
  pub sorted : Descending s
  pub fresh : Fresh t s
  pub short : length s < fuel

module _ (h : Heap) (t : Ptr) (j : ℕ) where
  after_visit :
      {x : Ptr} {n : Entry} {ns : List Entry}
      → Chain h t j x (n ∷ ns)
      → j ≤ n.level
      → Chain h t j n.addr ns
  after_visit (visit high e c) le = c
  after_visit (skip low c) le = absurd (omega arith)

  after_step :
      {x : Ptr} {n : Entry} {ns : List Entry}
      → Chain h t j x (n ∷ ns)
      → (y : Ptr) × Chain h t j y ns
  after_step (visit {n} high e c) = (n.addr, c)
  after_step {x} (skip low c) = (x, c)

module _ (h : Heap) (t : Ptr) (m fuel i key : ℕ) where
  pub seek-IsStop :
      (p : Ptr) (r ns : List Entry)
      → IsStop h t m fuel (suc i) p r
      → ((j : ℕ) → j < suc i → (x : Ptr) × Chain h t j x ns)
      → Nodes h m ns
      → Descending ns
      → Fresh t ns
      → length ns < fuel
      → IsStop h t m fuel (suc i) (seek i key p r ns).0 (seek i key p r ns).1
  seek-IsStop p r [] whole rest nodes sorted fresh short = unfold seek in whole
  seek-IsStop p r (n ∷ ns) whole rest nodes sorted fresh short = elim (dec_lt key n.key) [
    | no le ↦ rw (seek_here i key p r n ns (omega arith)) whole
    | yes above ↦ elim (dec_le i n.level) [
      | yes high ↦ rw (seek_enter i key p r n ns above high) (
          seek-IsStop n.addr ns ns (enter high) (λ j le. (n.addr, (enter high).chains j le)) nodes.2
            sorted.1 fresh.1 (omega arith))
      | no low ↦ rw (seek_pass i key p r n ns above (omega arith)) (
          seek-IsStop p r ns whole (λ j le. after_step h t j (rest j le).1) nodes.2 sorted.1 fresh.1
            (omega arith))
    ]
  ]
    where
      enter : i ≤ n.level → IsStop h t m fuel (suc i) n.addr ns
      enter high = record {
        chains = λ j le. after_visit h t j (rest j le).1 (omega arith);
        nodes = nodes.2;
        sorted = sorted.1;
        fresh = fresh.1;
        short = omega arith;
      }

  -- From a stop, the walk at its level ends at the stop of the search.
  pub IsStop-seek :
      (p : Ptr) (r : List Entry)
      → IsStop h t m fuel (suc i) p r
      → IsStop h t m fuel (suc i) (seek i key p r r).0 (seek i key p r r).1
  IsStop-seek p r s =
      seek-IsStop p r r s (λ j le. (p, s.chains j le)) s.nodes s.sorted s.fresh s.short

-- The code's walk stops there.
pub walk-seek :
    (fuel : ℕ) (h : Heap) (st : SkipList) (key i : ℕ) (p : Ptr) (r : List Entry) {ns : List Entry}
    (m : ℕ)
    → Chain h st.tail i p ns
    → Nodes h m ns
    → Descending ns
    → Fresh st.tail ns
    → length ns < fuel
    → walk fuel st key i p h ≡ ok (seek i key p r ns).0 h
unfolding walk seek load load_next
walk-seek zero h st key i p r m c nodes sorted fresh lt = absurd (omega arith)
walk-seek (suc fuel) h st key i p r m (end e) nodes sorted fresh lt = ground arith
walk-seek (suc fuel) h st key i p r m (visit {n} {ns} high e c) (at, low, nodes) (below, sorted)
      (ne, fresh) lt =
    ground (arith, walk-seek fuel h st key i n.addr ns m c nodes sorted fresh)
walk-seek (suc fuel) h st key i p r m (skip {n} {ns} low c) (at, lo, nodes) (below, sorted)
      (ne, fresh) lt =
    ground (
      arith,
      walk-seek (suc fuel) h st key i p r m c nodes sorted fresh,
      seek_stop i key p r ns n.key below,
    )

-- Searching keeps what is kept under the key.
pub seek-lookup :
    (i key : ℕ) (p : Ptr) (r ns : List Entry)
    → lookup key r ≡ lookup key ns
    → lookup key (seek i key p r ns).1 ≡ lookup key r
unfolding seek lookup
seek-lookup i key p r [] same = refl
seek-lookup i key p r (n ∷ ns) same =
    ground (arith, seek-lookup i key n.addr ns ns refl, seek-lookup i key p r ns)

seek-Below_zero : (key : ℕ) (p : Ptr) (ns : List Entry) → Below (suc key) (seek 0 key p ns ns).1
unfolding seek
seek-Below_zero key p [] = tt
seek-Below_zero key p (n ∷ ns) = elim (dec_lt key n.key) [
  | yes above ↦
      rw (seek_enter 0 key p (n ∷ ns) n ns above (omega arith)) (seek-Below_zero key n.addr ns)
  | no le ↦ rw (seek_here 0 key p (n ∷ ns) n ns (omega arith)) (omega arith)
]

-- At level 0 the search stops right before the first key that is not above.
pub seek-Below :
    (i key : ℕ) (p : Ptr) (ns : List Entry) → i ≡ 0 → Below (suc key) (seek i key p ns ns).1
seek-Below zero key p ns z = seek-Below_zero key p ns
seek-Below (suc i) key p ns z = absurd (omega arith)

pub IsStop-lower :
    {h : Heap} {t : Ptr} {m fuel i : ℕ} {q : Ptr} {s : List Entry}
    → IsStop h t m fuel (suc i) q s
    → IsStop h t m fuel i q s
IsStop-lower stop = record {
  chains = λ j lt. stop.chains j (omega arith);
  nodes = stop.nodes;
  sorted = stop.sorted;
  fresh = stop.fresh;
  short = stop.short;
}

pub Below-mono : (b c : ℕ) (ns : List Entry) → Below b ns → b ≤ c → Below c ns
Below-mono b c [] h le = tt
Below-mono b c (n ∷ ns) h le = omega arith

-- A key above all others is kept nowhere.
pub lookup-Below : (key : ℕ) (ns : List Entry) → Below key ns → Descending ns → lookup key ns ≡ null
unfolding lookup
lookup-Below key [] below sorted = refl
lookup-Below key (n ∷ ns) below (below', sorted) =
    ground (arith, lookup-Below key ns (Below-mono n.key key ns below' (omega arith)) sorted)
