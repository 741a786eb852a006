-- ===== src/SkipList/Operations.antt =====
-- Calls on a skip list and on a map from keys to pointers, and the map that entries stand for.
use timeseries_database.Base.{
  ℕ, ◌≤◌, ◌≡◌, ◌≢◌, refl, Option, none, some, List, [], ◌∷◌, arith, ◌==◌, length, if◌then◌else◌,
  Bool-cases, inl, inr,
}
use timeseries_database.NodeHeap.{Ptr, null, Header, Cmd, pure, ◌>>=◌}
use timeseries_database.SkipList.{
  SkipList, Memory, Status, done, failed, skip_list_insert, skip_list_find, skip_list_remove,
}
use timeseries_database.SkipList.Chain.{Entry, Absent, Fresh, Descending, lookup}
use timeseries_database.SkipList.Linking.{insert_entry}
use timeseries_database.SkipList.Insert.{IsFresh, new_entry}
use timeseries_database.SkipList.Locate.{find_entry, remove_entry, find_none}

pub data Operation : Type 0 where
  insert : (rand : ℕ → ℕ) (m : Memory) (ptr : Ptr) (key : ℕ) → Operation
  remove : (key : ℕ) → Operation
  find : (key : ℕ) → Operation

pub data Reply : Type 0 where
  status : Status → Reply
  value : Ptr → Reply

abbrev pub perform : ℕ → SkipList → Operation → Cmd Reply
perform fuel st (insert rand m ptr key) = do
  s ← skip_list_insert fuel rand m st ptr key
  pure (status s)
perform fuel st (remove key) = do s ← skip_list_remove fuel st key; pure (status s)
perform fuel st (find key) = do p ← skip_list_find fuel st key; pure (value p)

abbrev pub perform_each : ℕ → SkipList → List Operation → Cmd (List Reply)
perform_each fuel st [] = pure []
perform_each fuel st (op ∷ ops) = do
  reply ← perform fuel st op
  replies ← perform_each fuel st ops
  pure (reply ∷ replies)

-- A map: what is kept under each key.
abbrev pub Contents : Type 0
Contents = ℕ → Option Ptr

abbrev pub or_null : Option Ptr → Ptr
or_null none = null
or_null (some p) = p

abbrev pub removal_status : Option Ptr → Status
removal_status none = failed
removal_status (some p) = done

-- What each call on a map replies, and the map after it.
abbrev pub answer : Operation → Contents → Reply
answer (insert rand m ptr key) c = status done
answer (remove key) c = status (removal_status (c key))
answer (find key) c = value (or_null (c key))

abbrev pub update : Operation → Contents → Contents
update (insert rand m ptr key) c = λ k. if key == k then some ptr else c k
update (remove key) c = λ k. if key == k then none else c k
update (find key) c = c

abbrev pub answer_each : List Operation → Contents → List Reply
answer_each [] c = []
answer_each (op ∷ ops) c = answer op c ∷ answer_each ops (update op c)

-- The entries after a call.
abbrev pub entries_after : SkipList → Operation → List Entry → List Entry
entries_after st (insert rand m ptr key) ns = insert_entry (new_entry rand m st ptr key) ns
entries_after st (remove key) ns = remove_entry key ns
entries_after st (find key) ns = ns

-- What a call needs: an insert has memory at an unused address and a new key, and the key that the
-- tail's memory holds is not larger.
abbrev pub Allowed : SkipList → (tail : Header) → Operation → List Entry → Type 0
Allowed st tail (insert rand m ptr key) ns = IsFresh m st ns × (tail.key ≤ key) × Absent key ns
Allowed st tail (remove key) ns = Unit
Allowed st tail (find key) ns = Unit

abbrev pub EachAllowed : SkipList → (tail : Header) → List Operation → List Entry → Type 0
EachAllowed st tail [] ns = Unit
EachAllowed st tail (op ∷ ops) ns =
    Allowed st tail op ns × EachAllowed st tail ops (entries_after st op ns)

unfoldable pub kept : List Entry → Contents
kept [] k = none
kept (n ∷ ns) k = if n.key == k then some n.ptr else kept ns k

pub remove_entry-absent :
    (key : ℕ) (ns : List Entry) → find_entry key ns ≡ none → remove_entry key ns ≡ ns
unfolding find_entry remove_entry
remove_entry-absent key [] gone = refl
remove_entry-absent key (n ∷ ns) gone = ground (arith, remove_entry-absent key ns)

pub length-remove_entry : (key : ℕ) (ns : List Entry) → length (remove_entry key ns) ≤ length ns
unfolding remove_entry
length-remove_entry key [] = omega arith
length-remove_entry key (n ∷ ns) = ground (arith, length-remove_entry key ns)

pub lookup-kept : (k : ℕ) (ns : List Entry) → lookup k ns ≡ or_null (kept ns k)
unfolding lookup kept
lookup-kept k [] = refl
lookup-kept k (n ∷ ns) = ground (arith, lookup-kept k ns)

pub kept-insert_entry :
    (k : ℕ) (e : Entry) (ns : List Entry)
    → kept (insert_entry e ns) k ≡ (if e.key == k then some e.ptr else kept ns k)
unfolding kept insert_entry
kept-insert_entry k e [] = refl
kept-insert_entry k e (n ∷ ns) = ground (arith, kept-insert_entry k e ns)

pub kept-find_entry : (k : ℕ) (ns : List Entry) → find_entry k ns ≡ none → kept ns k ≡ none
unfolding kept find_entry
kept-find_entry k [] e = refl
kept-find_entry k (n ∷ ns) e = ground (arith, kept-find_entry k ns)

pub kept-found :
    (k : ℕ) (ns : List Entry) (e : Entry) → find_entry k ns ≡ some e → kept ns k ≡ some e.ptr
unfolding kept find_entry
kept-found k [] e found = ground arith
kept-found k (n ∷ ns) e found = ground (arith, kept-found k ns e)

kept_behind :
    (k : ℕ) (n : Entry) (ns : List Entry) → Descending (n ∷ ns) → n.key ≡ k → kept ns k ≡ none
kept_behind k n ns (below, sorted) e =
    kept-find_entry k ns (find_none k n.key ns below sorted (omega (arith, e)))

pub kept-remove_entry :
    (k key : ℕ) (ns : List Entry)
    → Descending ns
    → kept (remove_entry key ns) k ≡ (if key == k then none else kept ns k)
unfolding kept remove_entry
kept-remove_entry k key [] sorted = ground arith
kept-remove_entry k key (n ∷ ns) sorted = elim (Bool-cases (n.key == key)) [
  | inl hit ↦ rw hit (ground (arith, kept_behind k n ns sorted))
  | inr miss ↦ rw miss (ground (arith, kept-remove_entry k key ns sorted.1))
]

pub Fresh-found :
    (a : Ptr) (k : ℕ) (ns : List Entry) (e : Entry)
    → Fresh a ns
    → find_entry k ns ≡ some e
    → a ≢ e.addr
unfolding find_entry
Fresh-found a k [] e fresh found = ground arith
Fresh-found a k (n ∷ ns) e (ne, fresh) found = ground (arith, Fresh-found a k ns e fresh)
