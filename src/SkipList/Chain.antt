-- ===== src/SkipList/Chain.antt =====
-- What a skip list on the heap stands for: a list of entries, chained at every level.
use timeseries_database.Base.{
  ℕ, ◌≤◌, ◌<◌, ◌≡◌, ◌≢◌, sym, ◌∙◌, some, List, [], ◌∷◌, ◌==◌, if◌then◌else◌,
}
use timeseries_database.NodeHeap.{Ptr, null, valid, Header, link, Heap}
use timeseries_database.SkipList.{SkipList}

pub record Entry : Type 0 where
  pub addr : Ptr
  pub key : ℕ
  pub ptr : Ptr
  pub level : ℕ

abbrev pub header : Entry → Header
header n = record { key = n.key; ptr = n.ptr; level = n.level; array = valid }

-- `p` is none of the nodes.
abbrev pub Fresh : Ptr → List Entry → Type 0
Fresh p [] = Unit
Fresh p (n ∷ ns) = (p ≢ n.addr) × Fresh p ns

abbrev pub Distinct : List Entry → Type 0
Distinct [] = Unit
Distinct (n ∷ ns) = Fresh n.addr ns × Distinct ns

-- The first key is below `b`.
abbrev pub Below : ℕ → List Entry → Type 0
Below b [] = Unit
Below b (n ∷ ns) = n.key < b

-- Keys fall strictly: the list is kept in descending order.
abbrev pub Descending : List Entry → Type 0
Descending [] = Unit
Descending (n ∷ ns) = Below n.key ns × Descending ns

-- Each node is on the heap, below the level `m`.
abbrev pub Nodes : Heap → ℕ → List Entry → Type 0
Nodes h m [] = Unit
Nodes h m (n ∷ ns) = (h.node n.addr ≡ some (header n)) × (n.level < m) × Nodes h m ns

-- From `p` the pointers of level `j` lead through the nodes that are that high, in order, to the
-- tail `t`.
pub data Chain (h : Heap) (t : Ptr) (j : ℕ) : Ptr → List Entry → Type 0 where
  end : {p : Ptr} → h.next p j ≡ link t → Chain h t j p []
  visit :
      {p : Ptr} {n : Entry} {ns : List Entry}
      → j ≤ n.level
      → h.next p j ≡ link n.addr
      → Chain h t j n.addr ns
      → Chain h t j p (n ∷ ns)
  skip :
      {p : Ptr} {n : Entry} {ns : List Entry}
      → n.level < j
      → Chain h t j p ns
      → Chain h t j p (n ∷ ns)

-- The skip list `st` on the heap `h` holds the entries `ns`.
pub record IsSkipList (h : Heap) (st : SkipList) (ns : List Entry) : Type 0 where
  pub nodes : Nodes h st.max_level ns
  pub sorted : Descending ns
  pub distinct : Distinct ns
  pub not_null : Fresh null ns
  pub not_head : Fresh st.head ns
  pub not_tail : Fresh st.tail ns
  pub head_ne_tail : st.head ≢ st.tail
  pub head_ne_null : st.head ≢ null
  pub chains : (j : ℕ) → j < st.max_level → Chain h st.tail j st.head ns

-- The abstract view: the value that is kept under a key, `null` if there is none.
unfoldable pub lookup : ℕ → List Entry → Ptr
lookup key [] = null
lookup key (n ∷ ns) = if n.key == key then n.ptr else lookup key ns

-- The key is kept nowhere.
abbrev pub Absent : ℕ → List Entry → Type 0
Absent key [] = Unit
Absent key (n ∷ ns) = (n.key ≢ key) × Absent key ns

module _ {h g : Heap} {t : Ptr} {j : ℕ} where
  -- A chain survives a change that spares its nodes, and may be entered from another cell that
  -- holds the same pointer.
  pub relocate :
      (x y : Ptr) {p q : Ptr} {ns : List Entry}
      → Chain h t j p ns
      → g.next q j ≡ h.next p j
      → Fresh x ns
      → Fresh y ns
      → ((a : Ptr) → a ≢ x → a ≢ y → g.next a j ≡ h.next a j)
      → Chain g t j q ns
  relocate x y (end e) same fx fy frame = end (same ∙ e)
  relocate x y (visit {n} high e c) same (nx, fx) (ny, fy) frame =
      visit high (same ∙ e)
        (relocate x y c (frame n.addr (λ eq. nx (sym eq)) (λ eq. ny (sym eq))) fx fy frame)
  relocate x y (skip low c) same (nx, fx) (ny, fy) frame =
      skip low (relocate x y c same fx fy frame)

-- Nodes and cells that read the same stand for the same.
pub Nodes-frame :
    (h g : Heap) (m : ℕ) (x : Ptr) (ns : List Entry)
    → Nodes h m ns
    → Fresh x ns
    → ((a : Ptr) → a ≢ x → g.node a ≡ h.node a)
    → Nodes g m ns
Nodes-frame h g m x [] nodes fresh frame = tt
Nodes-frame h g m x (n ∷ ns) (e, low, nodes) (ne, fresh) frame =
    (frame n.addr (λ eq. ne (sym eq)) ∙ e, low, Nodes-frame h g m x ns nodes fresh frame)
