-- ===== src/SkipList/Removal.antt =====
-- Removing an entry from a list of entries.
use timeseries_database.Base.{
  ℕ, ◌<◌, ◌≡◌, ◌≢◌, sym, ap, subst, ◌∙◌, some, none, List, [], ◌∷◌, arith, Option,
}
use timeseries_database.Base.{Bool-cases, inl, inr, ◌==◌}
use native.Mathlib.Decide.{dec_lt}
use timeseries_database.NodeHeap.{Ptr, Heap}
use timeseries_database.SkipList.Chain.{Entry, header, Fresh, Distinct, Below, Descending, Nodes}
use timeseries_database.SkipList.Seek.{Below-mono}
use timeseries_database.SkipList.Locate.{find_entry, remove_entry, find_here, find_past, find_none}

-- How the entry under a key stands to the first entry of a list: it is the first, or comes after it.
pub data Split (key : ℕ) (e n : Entry) (ns : List Entry) : Type 0 where
  first : n ≡ e → n.key ≡ key → Split key e n ns
  later : key < n.key → find_entry key ns ≡ some e → Split key e n ns

entry_of : Entry → Option Entry → Entry
entry_of d none = d
entry_of d (some e) = e

pub split :
    (key : ℕ) (e n : Entry) (ns : List Entry)
    → Below n.key ns
    → Descending ns
    → find_entry key (n ∷ ns) ≡ some e
    → Split key e n ns
split key e n ns below sorted found = elim (dec_lt key n.key) [
  | yes above ↦ later above (sym (find_past key n ns (omega arith)) ∙ found)
  | no le ↦ elim (dec_lt n.key key) [
    | yes under ↦
        let gone =
          sym (find_past key n ns (omega arith) ∙ find_none key n.key ns below sorted (omega arith))
          ∙ found in
        cc
    | no same ↦
        first (unfold entry_of in ap (entry_of n) (sym (find_here key n ns (omega arith)) ∙ found))
          (omega arith)
  ]
]

pub member-ne :
    (key : ℕ) (e : Entry) (x : Ptr) (ns : List Entry)
    → find_entry key ns ≡ some e
    → Fresh x ns
    → x ≢ e.addr
unfolding find_entry
member-ne key e x [] found fresh = cc
member-ne key e x (n ∷ ns) found (ne, fresh) = ground (arith, member-ne key e x ns)

-- What else there is to a skip list, without the entry.
module _ (key : ℕ) where
  pub Fresh-remove : (a : Ptr) (ns : List Entry) → Fresh a ns → Fresh a (remove_entry key ns)
  unfolding remove_entry
  Fresh-remove a [] fresh = tt
  Fresh-remove a (n ∷ ns) (ne, fresh) = elim (Bool-cases (n.key == key)) [
    | inl hit ↦ rw hit fresh
    | inr miss ↦ rw miss (ne, Fresh-remove a ns fresh)
  ]

  pub Distinct-remove : (ns : List Entry) → Distinct ns → Distinct (remove_entry key ns)
  unfolding remove_entry
  Distinct-remove [] distinct = tt
  Distinct-remove (n ∷ ns) (fresh, distinct) = elim (Bool-cases (n.key == key)) [
    | inl hit ↦ rw hit distinct
    | inr miss ↦ rw miss (Fresh-remove n.addr ns fresh, Distinct-remove ns distinct)
  ]

  Below-remove :
      (b : ℕ) (ns : List Entry) → Below b ns → Descending ns → Below b (remove_entry key ns)
  unfolding remove_entry
  Below-remove b [] below sorted = tt
  Below-remove b (n ∷ ns) below (below', sorted) = elim (Bool-cases (n.key == key)) [
    | inl hit ↦ rw hit (Below-mono n.key b ns below' (omega arith))
    | inr miss ↦ rw miss below
  ]

  pub Descending-remove : (ns : List Entry) → Descending ns → Descending (remove_entry key ns)
  unfolding remove_entry
  Descending-remove [] sorted = tt
  Descending-remove (n ∷ ns) (below, sorted) = elim (Bool-cases (n.key == key)) [
    | inl hit ↦ rw hit sorted
    | inr miss ↦ rw miss (Below-remove n.key ns below sorted, Descending-remove ns sorted)
  ]

  pub Nodes-remove :
      (h : Heap) (m : ℕ) (ns : List Entry) → Nodes h m ns → Nodes h m (remove_entry key ns)
  unfolding remove_entry
  Nodes-remove h m [] nodes = tt
  Nodes-remove h m (n ∷ ns) (at, low, nodes) = elim (Bool-cases (n.key == key)) [
    | inl hit ↦ rw hit nodes
    | inr miss ↦ rw miss (at, low, Nodes-remove h m ns nodes)
  ]

  -- The address of the entry is in no other.
  pub Fresh-removed :
      (e : Entry) (ns : List Entry)
      → find_entry key ns ≡ some e
      → Distinct ns
      → Fresh e.addr (remove_entry key ns)
  unfolding remove_entry
  Fresh-removed e [] found distinct = tt
  Fresh-removed e (n ∷ ns) found (fresh, distinct) = elim (Bool-cases (n.key == key)) [
    | inl hit ↦
        let same : n ≡ e =
          unfold entry_of in ap (entry_of n) (sym (find_here key n ns (ground arith)) ∙ found) in
        rw hit (subst (λ m. Fresh m.addr ns) same fresh)
    | inr miss ↦
        let found' = sym (find_past key n ns (ground arith)) ∙ found in
        rw miss (
          λ eq. member-ne key e n.addr ns found' fresh (sym eq),
          Fresh-removed e ns found' distinct,
        )
  ]

-- An entry that is found stands on the heap, below the level `m`.
pub Nodes-find :
    (h : Heap) (m key : ℕ) (e : Entry) (ns : List Entry)
    → Nodes h m ns
    → find_entry key ns ≡ some e
    → (h.node e.addr ≡ some (header e)) × (e.level < m)
Nodes-find h m key e [] nodes found = unfold find_entry in cc
Nodes-find h m key e (n ∷ ns) (at, low, nodes) found = elim (Bool-cases (n.key == key)) [
  | inl hit ↦
      let same : n ≡ e =
        unfold entry_of in ap (entry_of n) (sym (find_here key n ns (ground arith)) ∙ found) in
      subst (λ m'. (h.node m'.addr ≡ some (header m')) × (m'.level < m)) same (at, low)
  | inr miss ↦ Nodes-find h m key e ns nodes (sym (find_past key n ns (ground arith)) ∙ found)
]
