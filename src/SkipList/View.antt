-- ===== src/SkipList/View.antt =====
-- The abstract view of a skip list as a map, and the map that inserting makes of it.
use timeseries_database.Base.{
  ℕ, ◌≡◌, refl, ◌∙◌, ap, some, List, [], ◌∷◌, arith, ◌==◌, if◌then◌else◌, length, suc, ◌<◌, ◌≤◌,
}
use timeseries_database.NodeHeap.{Ptr, Header, Heap, ok}
use timeseries_database.SkipList.{SkipList, Memory, done, skip_list_insert, skip_list_find}
use timeseries_database.SkipList.Chain.{Entry, Absent, IsSkipList, lookup}
use timeseries_database.SkipList.Find.{skip_list_find-lookup}
use timeseries_database.SkipList.Linking.{insert_entry}
use timeseries_database.SkipList.Insert.{IsFresh, new_entry, skip_list_insert_lem}

lookup-insert_entry :
    (k : ℕ) (e : Entry) (ns : List Entry)
    → lookup k (insert_entry e ns) ≡ (if e.key == k then e.ptr else lookup k ns)
unfolding lookup insert_entry
lookup-insert_entry k e [] = refl
lookup-insert_entry k e (n ∷ ns) = ground (arith, lookup-insert_entry k e ns)

pub length-insert_entry :
    (e : Entry) (ns : List Entry) → length (insert_entry e ns) ≡ suc (length ns)
unfolding insert_entry
length-insert_entry e [] = refl
length-insert_entry e (n ∷ ns) = ground (arith, length-insert_entry e ns)

-- After an insert, skip_list_find returns the new value under the new key, and under every other
-- key what it returned before: on a skip list with at least one level that does not hold the key,
-- with memory for the node at an unused address, a key in the tail's memory that is at most the
-- new one, and fuel above the number of entries after the insert.
pub find-insert :
    (h : Heap) (st : SkipList) (ns : List Entry) (rand : ℕ → ℕ) (m : Memory) (ptr : Ptr)
    (key fuel : ℕ) (tail : Header)
    → IsSkipList h st ns
    → IsFresh m st ns
    → h.node st.tail ≡ some tail
    → tail.key ≤ key
    → 0 < st.max_level
    → Absent key ns
    → suc (length ns) < fuel
    → (k : ℕ)
    → (g : Heap) × (skip_list_insert fuel rand m st ptr key h ≡ ok done g)
      × (skip_list_find fuel st k h ≡ ok (lookup k ns) h)
      × (skip_list_find fuel st k g ≡ ok (if key == k then ptr else lookup k ns) g)
find-insert h st ns rand m ptr key fuel tail is fresh at_tail low_tail some_level absent short k = (
  after.0,
  after.1,
  skip_list_find-lookup h st ns fuel k is (omega arith),
  skip_list_find-lookup after.0 st (insert_entry entry ns) fuel k after.2
        (omega (arith, length-insert_entry entry ns))
      ∙ ap (λ v. ok v after.0) (lookup-insert_entry k entry ns),
)
  where
    entry : Entry
    entry = new_entry rand m st ptr key

    after :
        (g : Heap) × (skip_list_insert fuel rand m st ptr key h ≡ ok done g)
        × IsSkipList g st (insert_entry entry ns)
        × (g.node st.tail ≡ some tail)
    after =
        skip_list_insert_lem h st ns rand m ptr key fuel tail is fresh at_tail low_tail some_level
          absent (omega arith)
