-- ===== src/SkipList/Tests.antt =====
-- A skip list with one entry, runs of the code on it, and the theorems at it.
use timeseries_database.Base.{
  ℕ, ◌<◌, ◌≡◌, refl, true, none, some, List, [], ◌∷◌, arith, ◌==◌, ltb, if◌then◌else◌,
}
use timeseries_database.Base.Int.{pos}
use timeseries_database.NodeHeap.{
  Ptr, wild, valid, nil, fault, Header, no_cell, link, Heap, Outcome, ok, pure, ◌>>=◌, ◌>>◌, load,
  load_next, set_next, put, allocate, release,
}
use timeseries_database.SkipList.{
  SkipList, Memory, Status, done, failed, skip_list_random_level, skip_list_create,
  skip_list_insert, skip_list_find, skip_list_remove, skip_list_destroy,
}
use timeseries_database.SkipList.Chain.{Entry, header, Chain, end, visit, IsSkipList, lookup}
use timeseries_database.SkipList.Find.{skip_list_find-lookup}
use timeseries_database.SkipList.Linking.{insert_entry}
use timeseries_database.SkipList.Insert.{
  IsFresh, new_entry, skip_list_random_level-lt, skip_list_insert_lem,
}
use timeseries_database.SkipList.Create.{skip_list_create-IsSkipList}
use timeseries_database.SkipList.View.{find-insert}
use timeseries_database.SkipList.Locate.{find_entry}
use timeseries_database.SkipList.Remove.{Removes, skip_list_remove_lem}
use timeseries_database.SkipList.Destroy.{Destroys, skip_list_destroy_lem}
use timeseries_database.SkipList.Operations.{
  Operation, insert, remove, find, perform_each, answer_each, kept,
}
use timeseries_database.SkipList.Session.{perform_each-answer_each}
use timeseries_database.SkipList.Print.{skip_list_print}

abbrev nothing : Heap
nothing = record { node = λ a. none; next = λ a j. no_cell }

abbrev zeroed : Header
zeroed = record { key = 0; ptr = 0; level = 0; array = wild }

abbrev coins : ℕ → ℕ
coins n = if n == 0 then 7 else 4

abbrev spot : Ptr → Memory
spot p = record { address = p; array = true }

-- What a program that stores, looks up and removes sees.
session : Outcome (Ptr × Ptr × Ptr × Status × Ptr)
unfolding skip_list_create skip_list_insert skip_list_find skip_list_remove skip_list_random_level
    load load_next set_next put allocate release
session =
    (do
      st ← skip_list_create 1 2 zeroed (pos 4)
      skip_list_insert 9 coins (spot 3) st 100 10
      skip_list_insert 9 (λ n. 0) (spot 4) st 200 30
      skip_list_insert 9 (λ n. 1) (spot 5) st 300 20
      a ← skip_list_find 9 st 10
      b ← skip_list_find 9 st 20
      c ← skip_list_find 9 st 25
      r ← skip_list_remove 9 st 20
      d ← skip_list_find 9 st 20
      pure (a, b, c, r, d))
      nothing

answer : {A : Type 0} → A → Outcome A → A
answer d (ok a h) = a
answer d r = d

session-answer : answer (0, 0, 0, failed, 9) session ≡ (100, 300, 0, done, 0)
unfolding answer session
session-answer = refl

abbrev st : SkipList
st = record { max_level = 2; head = 1; tail = 2 }

abbrev ten : Entry
ten = record { addr = 3; key = 10; ptr = 100; level = 1 }

-- The header of the head, and the list with what the tail's memory holds.
abbrev first : Header
first = record zeroed { array = valid }

abbrev one_with : Header → Heap
one_with tail = record {
  node = λ a.
      if a == 3
      then some (header ten)
      else (if a == 2 then some tail else (if a == 1 then some first else none));
  next = λ a j.
      if ltb j 2
      then (if a == 1 then link 3 else (if a == 3 then link 2 else no_cell))
      else no_cell;
}

abbrev one : Heap
one = one_with zeroed

one_with-Chain : (tail : Header) (j : ℕ) → j < 2 → Chain (one_with tail) 2 j 1 (ten ∷ [])
one_with-Chain tail j lt = visit (omega arith) (ground arith) (end (ground arith))

one_with-IsSkipList : (tail : Header) → IsSkipList (one_with tail) st (ten ∷ [])
one_with-IsSkipList tail = record {
  nodes = (refl, omega arith, tt);
  sorted = (tt, tt);
  distinct = (tt, tt);
  not_null = (omega arith, tt);
  not_head = (omega arith, tt);
  not_tail = (omega arith, tt);
  head_ne_tail = omega arith;
  head_ne_null = omega arith;
  chains = one_with-Chain tail;
}

one-IsSkipList : IsSkipList one st (ten ∷ [])
one-IsSkipList = one_with-IsSkipList zeroed

four-IsFresh : IsFresh (spot 4) st (ten ∷ [])
four-IsFresh = record {
  array = refl;
  not_null = omega arith;
  not_head = omega arith;
  not_tail = omega arith;
  unused = (omega arith, tt);
}

skip_list_find-lookup_example : skip_list_find 5 st 10 one ≡ ok (lookup 10 (ten ∷ [])) one
skip_list_find-lookup_example =
    skip_list_find-lookup one st (ten ∷ []) 5 10 one-IsSkipList (omega arith)

skip_list_random_level-lt_example : skip_list_random_level coins 2 < 2
skip_list_random_level-lt_example = skip_list_random_level-lt coins 2 (omega arith)

skip_list_insert_lem_example :
    (g : Heap) × (skip_list_insert 5 coins (spot 4) st 200 20 one ≡ ok done g)
    × IsSkipList g st (insert_entry (new_entry coins (spot 4) st 200 20) (ten ∷ []))
    × (g.node 2 ≡ some zeroed)
skip_list_insert_lem_example =
    skip_list_insert_lem one st (ten ∷ []) coins (spot 4) 200 20 5 zeroed one-IsSkipList
      four-IsFresh refl (omega arith) (omega arith) (omega arith, tt) (omega arith)

skip_list_create-IsSkipList_example :
    let st : SkipList = record { max_level = 4; head = 1; tail = 2 } in
    (g : Heap) × (skip_list_create 1 2 zeroed (pos 4) nothing ≡ ok st g)
    × IsSkipList g st []
    × (g.node 2 ≡ some zeroed)
skip_list_create-IsSkipList_example =
    skip_list_create-IsSkipList nothing 1 2 zeroed (pos 4) (omega arith) (omega arith)

find-insert_example :
    (g : Heap) × (skip_list_insert 5 coins (spot 4) st 200 20 one ≡ ok done g)
    × (skip_list_find 5 st 10 one ≡ ok (lookup 10 (ten ∷ [])) one)
    × (skip_list_find 5 st 10 g ≡ ok (if 20 == 10 then 200 else lookup 10 (ten ∷ [])) g)
find-insert_example =
    find-insert one st (ten ∷ []) coins (spot 4) 200 20 5 zeroed one-IsSkipList four-IsFresh refl
      (omega arith) (omega arith) (omega arith, tt) (omega arith) 10

skip_list_remove_lem_example : Removes one st (ten ∷ []) 5 10 (find_entry 10 (ten ∷ []))
skip_list_remove_lem_example =
    skip_list_remove_lem one st (ten ∷ []) 5 10 one-IsSkipList (omega arith)

-- A program that stores, removes and looks up.
abbrev four_calls : List Operation
four_calls = insert coins (spot 4) 200 20 ∷ remove 10 ∷ find 10 ∷ find 20 ∷ []

perform_each-answer_each_example :
    (g : Heap) × (ms : List Entry) × (perform_each 5 st four_calls one
      ≡ ok (answer_each four_calls (kept (ten ∷ []))) g)
    × IsSkipList g st ms
perform_each-answer_each_example =
    perform_each-answer_each one st (ten ∷ []) four_calls 5 zeroed one-IsSkipList refl (omega arith)
      ((four-IsFresh, omega arith, (omega arith, tt)), (tt, (tt, (tt, tt)))) (omega arith)

abbrev set_tail : Header
set_tail = record zeroed { array = nil }

skip_list_destroy_lem_example : Destroys (one_with set_tail) st (ten ∷ []) 5 nil
skip_list_destroy_lem_example =
    skip_list_destroy_lem (one_with set_tail) st (ten ∷ []) 5 first set_tail
      (one_with-IsSkipList set_tail) (omega arith) refl refl refl (omega arith) (omega arith)

-- The tail as `skip_list_create` leaves it.
destroy_unset : skip_list_destroy 5 st one ≡ fault
destroy_unset =
    skip_list_destroy_lem one st (ten ∷ []) 5 first zeroed one-IsSkipList (omega arith) refl refl
      refl (omega arith) (omega arith)

-- What is printed of the list with one entry, on both of its levels.
skip_list_print-one : skip_list_print 5 st one ≡ ok ((1, 10 ∷ []) ∷ (0, 10 ∷ []) ∷ []) one
unfolding skip_list_print load load_next
skip_list_print-one = refl
