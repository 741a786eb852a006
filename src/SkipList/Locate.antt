-- ===== src/SkipList/Locate.antt =====
-- The entry under a key, and where the walks of `skip_list_remove` for it stop.
use timeseries_database.Base.{
  ℕ, suc, ◌≤◌, ◌≡◌, ◌≢◌, refl, sym, ◌∙◌, Bool, true, false, Option, none, some, List, [], ◌∷◌,
  arith, ◌==◌, leb, if◌then◌else◌, Bool-cases, inl, inr, ==_iff, subst,
}
use native.Mathlib.Decide.{dec_lt}
use timeseries_database.NodeHeap.{Ptr, link, Header, Heap}
use timeseries_database.SkipList.Chain.{
  Entry, header, Fresh, Below, Descending, Nodes, Chain, end, visit, skip,
}
use timeseries_database.SkipList.Seek.{seek, seek_enter, seek_pass, seek_here, Below-mono}

unfoldable pub find_entry : ℕ → List Entry → Option Entry
find_entry key [] = none
find_entry key (n ∷ ns) = if n.key == key then some n else find_entry key ns

unfoldable pub remove_entry : ℕ → List Entry → List Entry
remove_entry key [] = []
remove_entry key (n ∷ ns) = if n.key == key then ns else n ∷ remove_entry key ns

-- Whether the entry under the key is as high as level `i`.
unfoldable pub reaches : ℕ → ℕ → List Entry → Bool
reaches key i ns = elim (find_entry key ns) [ none ↦ false | some e ↦ leb i e.level ]

module _ (key : ℕ) (n : Entry) (ns : List Entry) where
  pub find_here : n.key ≡ key → find_entry key (n ∷ ns) ≡ some n
  unfolding find_entry
  find_here e = ground arith

  pub find_past : n.key ≢ key → find_entry key (n ∷ ns) ≡ find_entry key ns
  unfolding find_entry
  find_past ne = ground arith

  pub remove_here : n.key ≡ key → remove_entry key (n ∷ ns) ≡ ns
  unfolding remove_entry
  remove_here e = ground arith

  pub remove_past : n.key ≢ key → remove_entry key (n ∷ ns) ≡ n ∷ remove_entry key ns
  unfolding remove_entry
  remove_past ne = ground arith

-- A key at or above the first is not found behind it.
pub find_none :
    (key b : ℕ) (ns : List Entry) → Below b ns → Descending ns → b ≤ key → find_entry key ns ≡ none
unfolding find_entry
find_none key b [] below sorted le = refl
find_none key b (n ∷ ns) below (below', sorted) le =
    ground (arith, find_none key n.key ns below' sorted (omega arith))

pub reaches_absent :
    (key i : ℕ) (ns : List Entry) → find_entry key ns ≡ none → reaches key i ns ≡ false
unfolding reaches
reaches_absent key i ns gone = rw (reaches, gone) refl

pub reaches_found :
    (key i : ℕ) (e : Entry) (ns : List Entry)
    → find_entry key ns ≡ some e
    → reaches key i ns ≡ leb i e.level
unfolding reaches
reaches_found key i e ns found = rw (reaches, found) refl

-- What stands behind the node where a walk for `key` at level `i` stops: the tail or another key,
-- if the entry under the key is not that high, or else that entry.
pub data Lands (h : Heap) (t : Ptr) (key i : ℕ) (w : Ptr) : Bool → Type 0 where
  tail : h.next w i ≡ link t → Lands h t key i w false
  other :
      (a : Ptr) (n : Header)
      → h.next w i ≡ link a
      → a ≢ t
      → h.node a ≡ some n
      → (n.key == key) ≡ false
      → Lands h t key i w false
  hit :
      (e : Entry)
      → h.next w i ≡ link e.addr
      → e.addr ≢ t
      → h.node e.addr ≡ some (header e)
      → (e.key == key) ≡ true
      → Lands h t key i w true

module _ (key i : ℕ) (n : Entry) (ns : List Entry) where
  reaches_here : n.key ≡ key → reaches key i (n ∷ ns) ≡ leb i n.level
  unfolding reaches
  reaches_here e = rw (reaches, find_here key n ns e) refl

  reaches_past : n.key ≢ key → reaches key i (n ∷ ns) ≡ reaches key i ns
  unfolding reaches
  reaches_past ne = rw (reaches, find_past key n ns ne) refl

reaches_none :
    (key i b : ℕ) (ns : List Entry)
    → Below b ns
    → Descending ns
    → b ≤ key
    → reaches key i ns ≡ false
unfolding reaches
reaches_none key i b ns below sorted le = rw (reaches, find_none key b ns below sorted le) refl

-- The first node of a chain whose keys are not above `key`.
Chain-Lands :
    {h : Heap} {t : Ptr} {i : ℕ} (key m : ℕ) {p : Ptr} {ns : List Entry}
    → Chain h t i p ns
    → Nodes h m ns
    → Descending ns
    → Fresh t ns
    → Below (suc key) ns
    → Lands h t key i p (reaches key i ns)
Chain-Lands key m (end e) nodes sorted fresh below = unfold reaches find_entry in tail e
Chain-Lands {h} {t} {i} key m {p} (visit {n} {ns} high e c) (at, low, nodes) (below', sorted)
      (ne, fresh) below =
    elim (Bool-cases (n.key == key)) [
      | inl same ↦
          let eq = (==_iff n.key key).0 same in
          subst (Lands h t key i p) (sym (reaches_here key i n ns eq ∙ ground arith))
            (hit n e (λ x. ne (sym x)) at same)
      | inr differ ↦
          subst (Lands h t key i p)
            (sym (
              reaches_past key i n ns (ground arith)
              ∙ reaches_none key i n.key ns below' sorted (omega arith)))
            (other n.addr (header n) e (λ x. ne (sym x)) at differ)
    ]
Chain-Lands {h} {t} {i} key m {p} (skip {n} {ns} low c) (at, lo, nodes) (below', sorted) (ne, fresh)
      below =
    let none_left = reaches_none key i n.key ns below' sorted in
    elim (Bool-cases (n.key == key)) [
      | inl same ↦
          let eq = (==_iff n.key key).0 same in
          subst (Lands h t key i p)
            (none_left (omega (arith, eq)) ∙ sym (reaches_here key i n ns eq ∙ ground arith))
            (Chain-Lands key m c nodes sorted fresh
              (Below-mono n.key (suc key) ns below' (omega arith)))
      | inr differ ↦ subst (Lands h t key i p) (sym (reaches_past key i n ns (ground arith))) (
          Chain-Lands key m c nodes sorted fresh
            (Below-mono n.key (suc key) ns below' (omega arith)))
    ]

-- Where the walk stops.
pub seek-Lands :
    {h : Heap} {t : Ptr} {i : ℕ} (key m : ℕ) {p : Ptr} (r : List Entry) {ns : List Entry}
    → Chain h t i p ns
    → Nodes h m ns
    → Descending ns
    → Fresh t ns
    → Lands h t key i (seek i key p r ns).0 (reaches key i ns)
seek-Lands key m r (end e) nodes sorted fresh = unfold seek reaches find_entry in tail e
seek-Lands {h} {t} {i} key m {p} r (visit {n} {ns} high e c) nodes sorted fresh =
    elim (dec_lt key n.key) [
      | yes above ↦
          rw (seek_enter i key p r n ns above high, reaches_past key i n ns (omega arith))
            (seek-Lands key m ns c nodes.2 sorted.1 fresh.1)
      | no le ↦
          rw (seek_here i key p r n ns (omega arith))
            (Chain-Lands key m (visit high e c) nodes sorted fresh (omega arith))
    ]
seek-Lands {h} {t} {i} key m {p} r (skip {n} {ns} low c) nodes sorted fresh =
    elim (dec_lt key n.key) [
      | yes above ↦
          rw (seek_pass i key p r n ns above low, reaches_past key i n ns (omega arith))
            (seek-Lands key m r c nodes.2 sorted.1 fresh.1)
      | no le ↦
          rw (seek_here i key p r n ns (omega arith))
            (Chain-Lands key m (skip low c) nodes sorted fresh (omega arith))
    ]
