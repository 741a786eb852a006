-- ===== src/SkipList/Session.antt =====
-- A sequence of calls on a skip list, against the map.
use timeseries_database.Base.{
  ℕ, suc, ◌+◌, ◌<◌, ◌≤◌, ◌≡◌, refl, sym, ap, subst, ◌∙◌, Option, none, some, List, [], ◌∷◌, arith,
  ◌==◌, length, if◌then◌else◌,
}
use timeseries_database.NodeHeap.{Header, Heap, ok, pure, run}
use timeseries_database.SkipList.{SkipList, skip_list_insert, skip_list_find, skip_list_remove}
use timeseries_database.SkipList.Chain.{Entry, Descending, IsSkipList}
use timeseries_database.SkipList.Find.{skip_list_find-lookup}
use timeseries_database.SkipList.Insert.{new_entry, skip_list_insert_lem}
use timeseries_database.SkipList.Locate.{find_entry}
use timeseries_database.SkipList.Remove.{Removes, skip_list_remove_lem}
use timeseries_database.SkipList.View.{length-insert_entry}
use timeseries_database.SkipList.Operations.{
  Operation, insert, remove, find, status, value, perform, perform_each, Contents, or_null,
  removal_status, answer, update, answer_each, entries_after, Allowed, EachAllowed, kept,
  lookup-kept, kept-insert_entry, kept-find_entry, kept-found, kept-remove_entry, Fresh-found,
  remove_entry-absent, length-remove_entry,
}

-- What one call does.
Served : ℕ → SkipList → (tail : Header) → Operation → List Entry → Contents → Heap → Type 0
Served fuel st tail op ns c h =
    (g : Heap) × (perform fuel st op h ≡ ok (answer op c) g)
    × IsSkipList g st (entries_after st op ns)
    × (g.node st.tail ≡ some tail)

module _ (fuel : ℕ) (st : SkipList) (tail : Header) where
  serve_remove :
      (h : Heap) (ns : List Entry) (key : ℕ) (o : Option Entry)
      → IsSkipList h st ns
      → h.node st.tail ≡ some tail
      → find_entry key ns ≡ o
      → Removes h st ns fuel key o
      → Served fuel st tail (remove key) ns (kept ns) h
  unfolding Served
  serve_remove h ns key none is at_tail gone e = (
    h,
    run (skip_list_remove fuel st key) _ e
        ∙ ap (λ p. ok (status (removal_status p)) h) (sym (kept-find_entry key ns gone)),
    subst (IsSkipList h st) (sym (remove_entry-absent key ns gone)) is,
    at_tail,
  )
  serve_remove h ns key (some e) is at_tail found (g, runs, after, _, same) = (
    g,
    run (skip_list_remove fuel st key) _ runs
        ∙ ap (λ p. ok (status (removal_status p)) g) (sym (kept-found key ns e found)),
    after,
    same st.tail (Fresh-found st.tail key ns e is.not_tail found) ∙ at_tail,
  )

  serve :
      (h : Heap) (ns : List Entry) (op : Operation)
      → IsSkipList h st ns
      → h.node st.tail ≡ some tail
      → 0 < st.max_level
      → Allowed st tail op ns
      → length ns < fuel
      → Served fuel st tail op ns (kept ns) h
  unfolding Served
  serve h ns (insert rand m ptr key) is at_tail some_level (fresh, low, absent) short =
      let (g, runs, after, at_tail') =
        skip_list_insert_lem h st ns rand m ptr key fuel tail is fresh at_tail low some_level absent
          short in
      (g, run (skip_list_insert fuel rand m st ptr key) _ runs, after, at_tail')
  serve h ns (remove key) is at_tail some_level allowed short =
      serve_remove h ns key (find_entry key ns) is at_tail refl
        (skip_list_remove_lem h st ns fuel key is short)
  serve h ns (find key) is at_tail some_level allowed short = (
    h,
    run (skip_list_find fuel st key) _ (skip_list_find-lookup h st ns fuel key is short)
        ∙ ap (λ p. ok (value p) h) (lookup-kept key ns),
    is,
    at_tail,
  )

answer-agrees :
    (op : Operation) (c d : Contents) → ((k : ℕ) → c k ≡ d k) → answer op c ≡ answer op d
answer-agrees (insert rand m ptr key) c d same = refl
answer-agrees (remove key) c d same = ap (λ p. status (removal_status p)) (same key)
answer-agrees (find key) c d same = ap (λ p. value (or_null p)) (same key)

update-agrees :
    (st : SkipList) (op : Operation) (c : Contents) (ns : List Entry)
    → Descending ns
    → ((k : ℕ) → c k ≡ kept ns k)
    → (k : ℕ) → update op c k ≡ kept (entries_after st op ns) k
update-agrees st (insert rand m ptr key) c ns sorted same k =
    ap (λ p. if key == k then some ptr else p) (same k)
    ∙ sym (kept-insert_entry k (new_entry rand m st ptr key) ns)
update-agrees st (remove key) c ns sorted same k =
    ap (λ p. if key == k then none else p) (same k) ∙ sym (kept-remove_entry k key ns sorted)
update-agrees st (find key) c ns sorted same k = same k

length-entries_after :
    (st : SkipList) (op : Operation) (ns : List Entry)
    → length (entries_after st op ns) ≤ suc (length ns)
length-entries_after st (insert rand m ptr key) ns =
    omega (arith, length-insert_entry (new_entry rand m st ptr key) ns)
length-entries_after st (remove key) ns = omega (arith, length-remove_entry key ns)
length-entries_after st (find key) ns = omega arith

module _ (fuel : ℕ) (st : SkipList) (tail : Header) (some_level : 0 < st.max_level) where
  perform_each-agrees :
      (ops : List Operation) (h : Heap) (ns : List Entry) (c : Contents)
      → IsSkipList h st ns
      → h.node st.tail ≡ some tail
      → ((k : ℕ) → c k ≡ kept ns k)
      → EachAllowed st tail ops ns
      → length ns + length ops ≤ fuel
      → (g : Heap) × (ms : List Entry) × (perform_each fuel st ops h ≡ ok (answer_each ops c) g)
        × IsSkipList g st ms
  unfolding Served
  perform_each-agrees [] h ns c is at_tail same allowed short = (h, ns, refl, is)
  perform_each-agrees (op ∷ ops) h ns c is at_tail same (allowed, rest) short =
      let (h', runs, is', at_tail') =
        serve fuel st tail h ns op is at_tail some_level allowed (omega arith) in
      let (g, ms, runs', after) =
        perform_each-agrees ops h' (entries_after st op ns) (update op c) is' at_tail'
          (update-agrees st op c ns is.sorted same) rest
          (omega (arith, length-entries_after st op ns)) in
      let reply = answer op (kept ns) in
      (
        g,
        ms,
        run (perform fuel st op) _ runs
            ∙ run (perform_each fuel st ops) (λ replies. pure (reply ∷ replies)) runs'
            ∙ ap (λ r. ok (r ∷ answer_each ops (update op c)) g)
                (sym (answer-agrees op c (kept ns) same)),
        after,
      )

-- Any sequence of inserts, removals and lookups on a skip list replies as a map from keys to
-- pointers does, call by call, and leaves a skip list: on a list with at least one level whose
-- tail is a node, with fuel for the entries and the calls together. Each insert has a key that is
-- not held at that point and is at least the key in the tail's memory, and memory at an address
-- that is not in use then.
pub perform_each-answer_each :
    (h : Heap) (st : SkipList) (ns : List Entry) (ops : List Operation) (fuel : ℕ) (tail : Header)
    → IsSkipList h st ns
    → h.node st.tail ≡ some tail
    → 0 < st.max_level
    → EachAllowed st tail ops ns
    → length ns + length ops ≤ fuel
    → (g : Heap) × (ms : List Entry) × (perform_each fuel st ops h
        ≡ ok (answer_each ops (kept ns)) g)
      × IsSkipList g st ms
perform_each-answer_each h st ns ops fuel tail is at_tail some_level allowed short =
    perform_each-agrees fuel st tail some_level ops h ns (kept ns) is at_tail (λ k. refl) allowed
      short
