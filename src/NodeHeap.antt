-- ===== src/NodeHeap.antt =====
-- The memory of skip_list.c: `struct skip_listnode`, and the arrays of pointers that nodes own.
use timeseries_database.Base.{
  ℕ, ◌≡◌, ◌≢◌, refl, ap, true, false, arith, Bool, Option, none, some, ◌==◌, ltb, ◌&&◌,
  if◌then◌else◌,
}

abbrev pub Ptr : Type 0
Ptr = ℕ

abbrev pub null : Ptr
null = 0

-- The pointer `next` of a node: to an array, `NULL`, or whatever the memory held before.
pub data ArrayPtr : Type 0 where
  valid : ArrayPtr
  nil : ArrayPtr
  wild : ArrayPtr

-- The fields of a node; the elements of its array are cells of the heap.
pub record Header : Type 0 where
  pub key : ℕ
  pub ptr : Ptr
  pub level : ℕ
  pub array : ArrayPtr

-- An element of a node's array `next`: outside it, allocated and never written, or a pointer.
pub data Cell : Type 0 where
  no_cell : Cell
  blank : Cell
  link : Ptr → Cell

pub record Heap : Type 0 where
  pub node : Ptr → Option Header
  pub next : Ptr → ℕ → Cell

-- `fault` is undefined behaviour: a read of what was never written, or an access outside what
-- is allocated.
pub data Outcome (A : Type 0) : Type 0 where
  fault out_of_fuel : Outcome A
  ok : A → (h : Heap) → Outcome A

-- What follows a command starts from the heap that it leaves, and is skipped when it fails.
abbrev pub and_then : {A B : Type 0} → Outcome A → (A → Heap → Outcome B) → Outcome B
and_then fault k = fault
and_then out_of_fuel k = out_of_fuel
and_then (ok a h) k = k a h

abbrev pub Cmd : Type 0 → Type 0
Cmd A = (h : Heap) → Outcome A

abbrev pub pure : {A : Type 0} → A → Cmd A
pure a h = ok a h

infixl 5 ◌>>=◌
abbrev pub ◌>>=◌ : {A B : Type 0} → Cmd A → (A → Cmd B) → Cmd B
(m >>= k) h = and_then (m h) k

infixl 5 ◌>>◌
abbrev pub ◌>>◌ : {A B : Type 0} → Cmd A → Cmd B → Cmd B
(m >> n) h = and_then (m h) (λ _. n)

abbrev pub found : Option Header → Cmd Header
found none h = fault
found (some n) h = ok n h

-- `p->key`, and the other plain fields.
unfoldable pub load : Ptr → Cmd Header
load p h = found (h.node p) h

abbrev pub read : Cell → Cmd Ptr
read no_cell h = fault
read blank h = fault
read (link q) h = ok q h

-- `p->next[i]`
unfoldable pub load_next : Ptr → ℕ → Cmd Ptr
load_next p i h = read (h.next p i) h

-- The heap after `p->next[i] = q`.
unfoldable pub put : Heap → Ptr → ℕ → Cell → Heap
put h p i c = record h { next = λ a j. if a == p && j == i then c else h.next a j }

abbrev pub write : Cell → Ptr → ℕ → Ptr → Cmd (Unit {0})
write no_cell p i q h = fault
write blank p i q h = ok tt (put h p i (link q))
write (link _) p i q h = ok tt (put h p i (link q))

-- `p->next[i] = q`
unfoldable pub set_next : Ptr → ℕ → Ptr → Cmd (Unit {0})
set_next p i q h = write (h.next p i) p i q h

-- A node at `p` with an array of `n` pointers that are not yet written.
unfoldable pub allocate : Ptr → Header → ℕ → Heap → Heap
allocate p d n h = record {
  node = λ a. if a == p then some d else h.node a;
  next = λ a j. if a == p then (if ltb j n then blank else no_cell) else h.next a j;
}

-- The heap after a node and its array are freed.
unfoldable pub release : Ptr → Heap → Heap
release p h = record {
  node = λ a. if a == p then none else h.node a;
  next = λ a j. if a == p then no_cell else h.next a j;
}

-- Running a command whose first step is known.
module _ {A B : Type 0} where
  pub run : (m : Cmd A) {a : A} {h g : Heap} (k : A → Cmd B) → m h ≡ ok a g → (m >>= k) h ≡ k a g
  run m k e = ap (λ r. and_then r k) e

module _ {B : Type 0} {h : Heap} where
  pub run-load :
      (p : Ptr) {n : Header} (k : Header → Cmd B) → h.node p ≡ some n → (load p >>= k) h ≡ k n h
  run-load p k e = run (load p) k (unfold load in rw e)

  pub run-load_next :
      (p : Ptr) {q : Ptr} (i : ℕ) (k : Ptr → Cmd B)
      → h.next p i ≡ link q
      → (load_next p i >>= k) h ≡ k q h
  run-load_next p i k e = run (load_next p i) k (unfold load_next in rw e)

module _ {B : Type 0} (h : Heap) (p : Ptr) (i : ℕ) (q : Ptr) (k : Unit {0} → Cmd B) where
  and_then-write :
      (c : Cell) → c ≢ no_cell → and_then (write c p i q h) k ≡ k tt (put h p i (link q))
  and_then-write no_cell ne = absurd (ne refl)
  and_then-write blank ne = refl
  and_then-write (link _) ne = refl

  pub run-set_next : h.next p i ≢ no_cell → (set_next p i q >>= k) h ≡ k tt (put h p i (link q))
  unfolding set_next
  run-set_next ne = and_then-write (h.next p i) ne

-- A conditional of commands whose test is known.
module _ {B : Type 0} {b : Bool} (x y : Cmd B) {h : Heap} where
  pub run-then : b ≡ true → (if b then x else y) h ≡ x h
  run-then e = rw e

  pub run-else : b ≡ false → (if b then x else y) h ≡ y h
  run-else e = rw e

pub eq_self : (a : ℕ) → (a == a) ≡ true
eq_self a = ground arith

pub eq_of_ne : (a b : ℕ) → a ≢ b → (a == b) ≡ false
eq_of_ne a b ne = ground arith
