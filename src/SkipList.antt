-- ===== src/SkipList.antt =====
-- skip_list.c. The heap is explicit; what `malloc` and `rand` return comes as arguments, and
-- each walk along a list runs on fuel.
pub mod Chain
pub mod Seek
pub mod Find
pub mod Scan
pub mod Splice
pub mod Linking
pub mod Insert
pub mod Create
pub mod View
pub mod Locate
pub mod ScanRemove
pub mod Unlink
pub mod Removal
pub mod Unlinking
pub mod Release
pub mod Remove
pub mod Destroy
pub mod Print
pub mod Operations
pub mod Session
mod Tests
use timeseries_database.Base.{
  ℕ, zero, suc, ◌+◌, ◌%◌, Bool, none, some, true, false, ◌&&◌, List, [], ◌∷◌, ◌==◌, ltb, leb,
  if◌then◌else◌,
}
use timeseries_database.Base.Int.{ℤ, pos, negsuc}
use timeseries_database.NodeHeap.{
  Ptr, null, ArrayPtr, valid, nil, wild, Header, no_cell, blank, Heap, fault, out_of_fuel, ok, Cmd,
  pure, ◌>>=◌, ◌>>◌, load, load_next, set_next, allocate, release,
}

-- `struct skip_list`
pub record SkipList : Type 0 where
  pub max_level : ℕ
  pub head : Ptr
  pub tail : Ptr

-- 0 and -1
pub data Status : Type 0 where
  done failed : Status

abbrev pub skip_list_max_level : ℕ
skip_list_max_level = 8

-- `rand n` is what the call after `n` others returns; `level` counts them.
random_level_loop : ℕ → (rand : ℕ → ℕ) → ℕ → ℕ → ℕ
random_level_loop zero rand max_level level = level
random_level_loop (suc fuel) rand max_level level =
    let more = random_level_loop fuel rand max_level (level + 1) in
    if (rand level % 2 == 1) && ltb (level + 1) max_level then more else level

unfoldable pub skip_list_random_level : (rand : ℕ → ℕ) → ℕ → ℕ
unfolding random_level_loop
skip_list_random_level rand max_level = random_level_loop max_level rand max_level 0

-- What the two allocations of a node give: its address or `null`, and whether there is an array.
pub record Memory : Type 0 where
  pub address : Ptr
  pub array : Bool

unfoldable pub skip_listnode_init : Memory → ℕ → Ptr → ℕ → Cmd Ptr
skip_listnode_init m level ptr key h =
    if m.address == null
    then ok null h
    else (if m.array
        then ok m.address (
            allocate m.address (record { key = key; ptr = ptr; level = level; array = valid })
              (level + 1) h)
        else ok null h)

-- `free` of a wild pointer is undefined.
abbrev pub free_both : ArrayPtr → Ptr → Cmd (Unit {0})
free_both wild slt h = fault
free_both nil slt h = ok tt (release slt h)
free_both valid slt h = ok tt (release slt h)

-- `slt->next` is freed, then `slt`.
unfoldable pub skip_listnode_destroy : Ptr → Cmd (Unit {0})
skip_listnode_destroy slt h =
    if slt == null
    then ok tt h
    else elim (h.node slt) [ none ↦ fault | some n ↦ free_both n.array slt h ]

abbrev pub clamp_level : ℤ → ℕ
clamp_level (negsuc n) = 1
clamp_level (pos n) = if ltb skip_list_max_level n then skip_list_max_level else n

fill_head : Ptr → Ptr → ℕ → ℕ → Cmd (Unit {0})
fill_head head tail zero i = pure tt
fill_head head tail (suc left) i = do set_next head i tail; fill_head head tail left (i + 1)

-- `junk` is what the memory that `malloc` gives for the two end nodes holds.
unfoldable pub skip_list_create : (head tail : Ptr) (junk : Header) → ℤ → Cmd SkipList
unfolding fill_head
skip_list_create head tail junk max_level =
    let m = clamp_level max_level in
    if head == null then (λ _. fault) else do
      (λ h. ok tt (allocate tail junk 0 (allocate head (record junk { array = valid }) m h)))
      fill_head head tail m 0
      pure (record { max_level = m; head = head; tail = tail })

-- The inner loop of `skip_list_find` and `skip_list_remove`.
unfoldable pub walk : ℕ → SkipList → ℕ → ℕ → Ptr → Cmd Ptr
walk zero st key i cur = λ _. out_of_fuel
walk (suc fuel) st key i cur = do
  next ← load_next cur i
  if next == st.tail
      then pure cur
      else do n ← load next; if ltb key n.key then walk fuel st key i next else pure cur

-- Levels `i - 1` down to 0.
unfoldable pub find_loop : ℕ → SkipList → ℕ → ℕ → Ptr → Cmd Ptr
unfolding walk
find_loop fuel st key zero cur = pure null
find_loop fuel st key (suc i) cur = do
  first ← load_next cur i
  if first == st.tail then find_loop fuel st key i cur else do
    cur' ← walk fuel st key i cur
    next ← load_next cur' i
    if next == st.tail
        then find_loop fuel st key i cur'
        else do n ← load next; if n.key == key then pure n.ptr else find_loop fuel st key i cur'

unfoldable pub skip_list_find : ℕ → SkipList → ℕ → Cmd Ptr
unfolding find_loop
skip_list_find fuel st key = find_loop fuel st key st.max_level st.head

-- The inner loop of `skip_list_insert`, which reads the key of the tail too.
unfoldable pub walk_insert : ℕ → SkipList → ℕ → ℕ → Ptr → Cmd Ptr
walk_insert zero st key i cur = λ _. out_of_fuel
walk_insert (suc fuel) st key i cur = if cur == st.tail then pure cur else do
  next ← load_next cur i
  n ← load next
  if ltb key n.key then walk_insert fuel st key i next else pure cur

-- The array `update`, filled from level `i - 1` down to 0 in front of what is there.
unfoldable pub scan_insert : ℕ → SkipList → ℕ → ℕ → Ptr → List Ptr → Cmd (List Ptr)
unfolding walk_insert
scan_insert fuel st key zero cur update = pure update
scan_insert fuel st key (suc i) cur update =
    if cur == st.tail then scan_insert fuel st key i cur (cur ∷ update) else do
      next ← load_next cur i
      n ← load next
      if ltb n.key key then scan_insert fuel st key i cur (cur ∷ update) else do
        cur' ← walk_insert fuel st key i cur
        scan_insert fuel st key i cur' (cur' ∷ update)

-- Levels `i` on, `left` of them, with the rest of `update`.
unfoldable pub splice : Ptr → ℕ → ℕ → List Ptr → Cmd (Unit {0})
splice slt zero i update = pure tt
splice slt (suc left) i [] = λ _. fault
splice slt (suc left) i (u ∷ update) = do
  next ← load_next u i
  set_next slt i next
  set_next u i slt
  splice slt left (i + 1) update

unfoldable pub skip_list_insert : ℕ → (rand : ℕ → ℕ) → Memory → SkipList → Ptr → ℕ → Cmd Status
unfolding scan_insert splice skip_listnode_init
skip_list_insert fuel rand m st ptr key = do
  let level = skip_list_random_level rand st.max_level
  slt ← skip_listnode_init m level ptr key
  if slt == null then pure failed else do
    update ← scan_insert fuel st key st.max_level st.head []
    splice slt (level + 1) 0 update
    pure done

-- As above, with `NULL` at the levels where no node has the key.
unfoldable pub scan_remove : ℕ → SkipList → ℕ → ℕ → Ptr → List Ptr → Cmd (List Ptr)
unfolding walk
scan_remove fuel st key zero cur update = pure update
scan_remove fuel st key (suc i) cur update = do
  first ← load_next cur i
  if first == st.tail then scan_remove fuel st key i cur (null ∷ update) else do
    cur' ← walk fuel st key i cur
    next ← load_next cur' i
    if next == st.tail then scan_remove fuel st key i cur' (null ∷ update) else do
      n ← load next
      scan_remove fuel st key i cur' ((if n.key == key then cur' else null) ∷ update)

-- Unlinks level by level; `temp` is the last node that was unlinked.
unfoldable pub unlink : ℕ → List Ptr → Ptr → Cmd Ptr
unlink i [] temp = pure temp
unlink i (u ∷ update) temp = if u == null then unlink (i + 1) update temp else do
  found ← load_next u i
  after ← load_next found i
  set_next u i after
  unlink (i + 1) update found

unfoldable pub skip_list_remove : ℕ → SkipList → ℕ → Cmd Status
unfolding scan_remove unlink skip_listnode_destroy
skip_list_remove fuel st key = do
  update ← scan_remove fuel st key st.max_level st.head []
  temp ← unlink 0 update null
  if temp == null then pure failed else do skip_listnode_destroy temp; pure done

unfoldable pub destroy_loop : ℕ → SkipList → Cmd (Unit {0})
destroy_loop zero st = λ _. out_of_fuel
destroy_loop (suc fuel) st = do
  cur ← load_next st.head 0
  if cur == st.tail then pure tt else do
    after ← load_next cur 0
    set_next st.head 0 after
    skip_listnode_destroy cur
    destroy_loop fuel st

-- The `struct skip_list` itself lives outside this heap.
unfoldable pub skip_list_destroy : ℕ → SkipList → Cmd (Unit {0})
unfolding destroy_loop skip_listnode_destroy
skip_list_destroy fuel st = do
  destroy_loop fuel st
  skip_listnode_destroy st.head
  skip_listnode_destroy st.tail
