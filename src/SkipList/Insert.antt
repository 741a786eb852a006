-- ===== src/SkipList/Insert.antt =====
-- `skip_list_insert` keeps a skip list, and adds the entry to it in order.
use timeseries_database.Base.{
  ℕ, zero, suc, ◌+◌, ◌≤◌, ◌<◌, ◌≡◌, ◌≢◌, sym, ◌∙◌, inr, true, some, List, [], arith, length,
}
use native.Mathlib.Decide.{dec_lt, dec_le}
use timeseries_database.NodeHeap.{
  Ptr, null, no_cell, link, Header, Heap, ok, allocate, run, run-else, eq_of_ne,
}
use timeseries_database.SkipList.{
  SkipList, Memory, done, random_level_loop, skip_list_random_level, skip_listnode_init,
  skip_list_insert, scan_insert, splice,
}
use timeseries_database.SkipList.Chain.{
  Entry, header, Fresh, Nodes-frame, Chain, end, visit, skip, relocate, Absent, IsSkipList,
}
use timeseries_database.SkipList.Seek.{seek, seek_enter, seek_pass, seek_here, seek-ne}
use timeseries_database.SkipList.Scan.{entries, scan_insert_lem}
use timeseries_database.SkipList.Splice.{
  spliced, spliced-node, spliced-outside, spliced-inside, splice-spliced,
}
use timeseries_database.SkipList.Linking.{
  insert_entry, Linked, Chain-insert, Chain-over, Fresh-insert, Distinct-insert, Descending-insert,
  Nodes-insert,
}

random_level_loop-lt :
    (fuel : ℕ) (rand : ℕ → ℕ) (m level : ℕ) → level < m → random_level_loop fuel rand m level < m
unfolding random_level_loop
random_level_loop-lt zero rand m level h = h
random_level_loop-lt (suc fuel) rand m level h =
    ground (arith, random_level_loop-lt fuel rand m (level + 1))

-- The random level of a node lies below the list's max_level, if that is positive, whatever rand
-- returns.
pub skip_list_random_level-lt :
    (rand : ℕ → ℕ) (max_level : ℕ)
    → 0 < max_level
    → skip_list_random_level rand max_level < max_level
unfolding skip_list_random_level
skip_list_random_level-lt rand m h = random_level_loop-lt m rand m 0 h

-- Memory for a new node: both allocations succeed, at an address that the list does not use.
pub record IsFresh (m : Memory) (st : SkipList) (ns : List Entry) : Type 0 where
  pub array : m.array ≡ true
  pub not_null : m.address ≢ null
  pub not_head : st.head ≢ m.address
  pub not_tail : st.tail ≢ m.address
  pub unused : Fresh m.address ns

-- What `skip_list_insert` adds.
abbrev pub new_entry : (ℕ → ℕ) → Memory → SkipList → Ptr → ℕ → Entry
new_entry rand m st ptr key = record {
  addr = m.address;
  key = key;
  ptr = ptr;
  level = skip_list_random_level rand st.max_level;
}

pub Chain-reads :
    {h : Heap} {t : Ptr} {j : ℕ} {p : Ptr} {ns : List Entry}
    → Chain h t j p ns
    → (q : Ptr) × (h.next p j ≡ link q)
Chain-reads {t} (end e) = (t, e)
Chain-reads (visit {n} high e c) = (n.addr, e)
Chain-reads (skip low c) = Chain-reads c

-- The pointer that the search stops at can be read.
seek-reads :
    {h : Heap} {t : Ptr} {j : ℕ} (key : ℕ) {p : Ptr} (r : List Entry) {ns : List Entry}
    → Chain h t j p ns
    → (q : Ptr) × (h.next (seek j key p r ns).0 j ≡ link q)
seek-reads {t} key r (end e) = unfold seek in (t, e)
seek-reads {j} key {p} r (visit {n} {ns} high e c) = elim (dec_lt key n.key) [
  | yes above ↦ rw (seek_enter j key p r n ns above high) (seek-reads key ns c)
  | no le ↦ rw (seek_here j key p r n ns (omega arith)) (n.addr, e)
]
seek-reads {j} key {p} r (skip {n} {ns} low c) = elim (dec_lt key n.key) [
  | yes above ↦ rw (seek_pass j key p r n ns above low) (seek-reads key r c)
  | no le ↦ rw (seek_here j key p r n ns (omega arith)) (Chain-reads c)
]

module _ (h : Heap) (st : SkipList) (ns : List Entry) (rand : ℕ → ℕ) (m : Memory) (ptr : Ptr)
    (key : ℕ) (is : IsSkipList h st ns) (fresh : IsFresh m st ns) where
  abbrev entry : Entry
  entry = new_entry rand m st ptr key

  -- The heap once the node is there, and once it is linked in.
  abbrev with_node : Heap
  with_node = allocate m.address (header entry) (entry.level + 1) h

  abbrev stop : ℕ → Ptr
  stop j = (seek j key st.head ns ns).0

  abbrev inserted : Heap
  inserted = spliced m.address stop 0 (entry.level + 1) with_node

  node-apart : (a : Ptr) → a ≢ m.address → with_node.node a ≡ h.node a
  node-apart a ne = unfold allocate in ground arith

  next-apart : (a : Ptr) (j : ℕ) → a ≢ m.address → with_node.next a j ≡ h.next a j
  next-apart a j ne = unfold allocate in ground arith

  node-here : with_node.node m.address ≡ some (header entry)
  node-here = unfold allocate in ground arith

  room : (j : ℕ) → 0 ≤ j → j < 0 + (entry.level + 1) → with_node.next m.address j ≢ no_cell
  room j _ lt e = unfold allocate in ground arith

  -- A node that no pointer leads to changes nothing.
  with_node-IsSkipList : IsSkipList with_node st ns
  with_node-IsSkipList = record {
    nodes = Nodes-frame h with_node st.max_level m.address ns is.nodes fresh.unused node-apart;
    sorted = is.sorted;
    distinct = is.distinct;
    not_null = is.not_null;
    not_head = is.not_head;
    not_tail = is.not_tail;
    head_ne_tail = is.head_ne_tail;
    head_ne_null = is.head_ne_null;
    chains = λ j lt.
        relocate m.address m.address (is.chains j lt) (next-apart st.head j fresh.not_head)
          fresh.unused fresh.unused (λ a ne _. next-apart a j ne);
  }

  stop-ne : (j : ℕ) → m.address ≢ stop j
  stop-ne j = seek-ne j key m.address st.head ns ns (λ eq. fresh.not_head (sym eq)) fresh.unused

  stop-Linked : (j : ℕ) → j ≤ entry.level → Linked with_node inserted j m.address (stop j)
  stop-Linked j le = record {
    into =
        spliced-inside m.address stop 0 (entry.level + 1) j with_node (stop j) (omega arith)
          (omega arith)
        ∙ ground arith;
    out =
        spliced-inside m.address stop 0 (entry.level + 1) j with_node m.address (omega arith)
          (omega arith)
        ∙ ground (arith, stop-ne j);
    frame = λ a new old.
        spliced-inside m.address stop 0 (entry.level + 1) j with_node a (omega arith) (omega arith)
        ∙ ground arith;
  }

  inserted-IsSkipList :
      0 < st.max_level → Absent key ns → IsSkipList inserted st (insert_entry entry ns)
  inserted-IsSkipList some_level absent = record {
    nodes =
        Nodes-insert entry inserted st.max_level ns
          (spliced-node m.address stop 0 (entry.level + 1) with_node m.address ∙ node-here)
          (skip_list_random_level-lt rand st.max_level some_level)
          (Nodes-frame with_node inserted st.max_level m.address ns before.nodes fresh.unused
            (λ a _. spliced-node m.address stop 0 (entry.level + 1) with_node a));
    sorted = Descending-insert entry ns absent is.sorted;
    distinct = Distinct-insert entry ns fresh.unused is.distinct;
    not_null = Fresh-insert entry null ns (λ eq. fresh.not_null (sym eq)) is.not_null;
    not_head = Fresh-insert entry st.head ns fresh.not_head is.not_head;
    not_tail = Fresh-insert entry st.tail ns fresh.not_tail is.not_tail;
    head_ne_tail = is.head_ne_tail;
    head_ne_null = is.head_ne_null;
    chains = λ j lt. elim (dec_le j entry.level) [
      | yes le ↦
          Chain-insert with_node inserted st.tail j entry st.head ns (before.chains j lt) le
            fresh.not_head is.not_head fresh.unused is.distinct (stop-Linked j le)
      | no over ↦
          Chain-over with_node inserted st.tail j entry (before.chains j lt) (omega arith)
            (λ a _.
              spliced-outside m.address stop 0 (entry.level + 1) j with_node a (inr (omega arith)))
            fresh.not_head fresh.unused
    ];
  }
    where
      before : IsSkipList with_node st ns
      before = with_node-IsSkipList

  init-ok : skip_listnode_init m entry.level ptr key h ≡ ok m.address with_node
  unfolding skip_listnode_init
  init-ok = rw (eq_of_ne m.address null fresh.not_null, fresh.array)

  insert-inserted :
      (fuel : ℕ) (tail : Header)
      → h.node st.tail ≡ some tail
      → tail.key ≤ key
      → 0 < st.max_level
      → length ns < fuel
      → skip_list_insert fuel rand m st ptr key h ≡ ok done inserted
  unfolding skip_list_insert
  insert-inserted fuel tail at_tail low_tail some_level short =
      run (skip_listnode_init m entry.level ptr key) _ init-ok
      ∙ run-else _ _ (eq_of_ne m.address null fresh.not_null)
      ∙ run (scan_insert fuel st key st.max_level st.head []) _ (
          scan_insert_lem with_node st key tail (node-apart st.tail fresh.not_tail ∙ at_tail)
            low_tail fuel ns with_node-IsSkipList short)
      ∙ run (splice m.address (entry.level + 1) 0 (entries stop 0 st.max_level)) _ (
          splice-spliced m.address stop 0 (entry.level + 1) st.max_level with_node
            (omega (arith, skip_list_random_level-lt rand st.max_level some_level))
            (λ j _ lt. seek-reads key ns (
              with_node-IsSkipList.chains j
                (omega (arith, skip_list_random_level-lt rand st.max_level some_level))))
            room stop-ne)

-- On a skip list with at least one level, inserting a key that it does not hold, with both
-- allocations of the node succeeding at an address that is not in use, returns 0 and leaves a skip
-- list with the one entry more, in order, whatever rand returns. The key in the tail's memory,
-- which the code reads, is at most the new key, and the fuel is above the number of entries. The
-- tail stays as it is.
pub skip_list_insert_lem :
    (h : Heap) (st : SkipList) (ns : List Entry) (rand : ℕ → ℕ) (m : Memory) (ptr : Ptr)
    (key fuel : ℕ) (tail : Header)
    → IsSkipList h st ns
    → IsFresh m st ns
    → h.node st.tail ≡ some tail
    → tail.key ≤ key
    → 0 < st.max_level
    → Absent key ns
    → length ns < fuel
    → (g : Heap) × (skip_list_insert fuel rand m st ptr key h ≡ ok done g)
      × IsSkipList g st (insert_entry (new_entry rand m st ptr key) ns)
      × (g.node st.tail ≡ some tail)
skip_list_insert_lem h st ns rand m ptr key fuel tail is fresh at_tail low_tail some_level absent
      short =
    (
      inserted h st ns rand m ptr key is fresh,
      insert-inserted h st ns rand m ptr key is fresh fuel tail at_tail low_tail some_level short,
      inserted-IsSkipList h st ns rand m ptr key is fresh some_level absent,
      spliced-node m.address _ 0 _ _ st.tail
          ∙ node-apart h st ns rand m ptr key is fresh st.tail fresh.not_tail
          ∙ at_tail,
    )
