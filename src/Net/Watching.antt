-- ===== src/Net/Watching.antt =====
-- What `net_select_run` watches.
use mathlib.Core.Bool.{true≢false, false≢true}
use timeseries_database.Base.{
  ℕ, ◌<◌, ◌≤◌, ◌≡◌, refl, inl, inr, Bool, true, false, Option, none, some, List, ◌==◌, ltb,
  Bool-cases, arith, replicate, if◌then◌else◌, ==_iff, subst, sym,
}
use timeseries_database.Base.Int.{ℤ, pos, negsuc, is_negative}
use timeseries_database.Io.{read_n}
use timeseries_database.Net.{
  fd_setsize, Watch, Turn, Progress, watching, closed, not_started, undefined, blocked, out_of_fuel,
  and_then, fd_set, fd_clr, watch_client, strlen, after_read, serve,
}

-- The set has the listening socket, and every descriptor of it is one that `P` allows and that the
-- call `select(maxfd + 1, ...)` looks at; `maxfd` is one that an `fd_set` has room for.
pub record Watches (P : ℕ → Type 0) (sfd : ℕ) (w : Watch) : Type 0 where
  pub listens : w.read_set sfd ≡ true
  pub covered : (i : ℕ) → w.read_set i ≡ true → (i ≤ w.maxfd) × P i
  pub room : w.maxfd < fd_setsize

abbrev pub IsSound : (P : ℕ → Type 0) (sfd : ℕ) → Progress → Type 0
IsSound P sfd (watching w) = Watches P sfd w
IsSound P sfd closed = Unit
IsSound P sfd not_started = Unit
IsSound P sfd undefined = Unit
IsSound P sfd blocked = Unit
IsSound P sfd out_of_fuel = ⊥

pub else_of : (b c d : Bool) → b ≡ false → (if b then c else d) ≡ true → d ≡ true
else_of true c d e h = absurd (true≢false e)
else_of false c d e h = h

then_of : (b c d : Bool) → b ≡ true → (if b then c else d) ≡ true → c ≡ true
then_of true c d e h = h
then_of false c d e h = absurd (false≢true e)

larger : (m n : ℕ) → (m ≤ (if ltb m n then n else m)) × (n ≤ (if ltb m n then n else m))
larger m n = (ground arith, ground arith)

module _ (P : ℕ → Type 0) (sfd : ℕ) where
  pub and_then-IsSound :
      (p : Progress) (k : Watch → Progress)
      → IsSound P sfd p
      → ((w : Watch) → Watches P sfd w → IsSound P sfd (k w))
      → IsSound P sfd (and_then p k)
  and_then-IsSound (watching w) k s next = next w s
  and_then-IsSound closed k s next = tt
  and_then-IsSound not_started k s next = tt
  and_then-IsSound undefined k s next = tt
  and_then-IsSound blocked k s next = tt
  and_then-IsSound out_of_fuel k s next = s

  pub if-IsSound :
      (b : Bool) (p q : Progress)
      → IsSound P sfd p
      → IsSound P sfd q
      → IsSound P sfd (if b then p else q)
  if-IsSound true p q s r = s
  if-IsSound false p q s r = r

  fd_set-Watches :
      (cfd : ℕ) (w : Watch)
      → Watches P sfd w
      → P cfd
      → cfd < fd_setsize
      → Watches P sfd (record {
        read_set = fd_set cfd w.read_set;
        maxfd = if ltb w.maxfd cfd then cfd else w.maxfd;
      })
  fd_set-Watches cfd w s allowed small = record {
    listens = elim (Bool-cases (sfd == cfd)) [ inl e ↦ rw e refl | inr e ↦ rw e s.listens ];
    covered = λ i h. elim (Bool-cases (i == cfd)) [
      | inl e ↦
          let same : i ≡ cfd = (==_iff i cfd).0 e in
          subst (λ j. (j ≤ (if ltb w.maxfd cfd then cfd else w.maxfd)) × P j) (sym same)
            ((larger w.maxfd cfd).1, allowed)
      | inr e ↦
          let (le, p) = s.covered i (else_of (i == cfd) true (w.read_set i) e h) in
          (omega (arith, le, (larger w.maxfd cfd).0), p)
    ];
    room = ground (arith, s.room, small);
  }

  fd_clr-Watches :
      (i : ℕ) (w : Watch)
      → Watches P sfd w
      → (i == sfd) ≡ false
      → Watches P sfd (record w { read_set = fd_clr i w.read_set })
  fd_clr-Watches i w s ne = record {
    listens = let e : (sfd == i) ≡ false = ground (arith, ne) in rw e s.listens;
    covered = λ j h. elim (Bool-cases (j == i)) [
      | inl e ↦ absurd (false≢true (then_of (j == i) false (w.read_set j) e h))
      | inr e ↦ s.covered j (else_of (j == i) false (w.read_set j) e h)
    ];
    room = s.room;
  }

  watch_client-IsSound :
      (c : ℤ) (w : Watch)
      → Watches P sfd w
      → ((n : ℕ) → c ≡ pos n → P n)
      → IsSound P sfd (watch_client c w)
  unfolding watch_client
  watch_client-IsSound (negsuc n) w s allowed = elim (Bool-cases (n == 0)) [
    | inl e ↦ rw e tt
    | inr e ↦ rw e tt
  ]
  watch_client-IsSound (pos n) w s allowed = elim (Bool-cases (ltb n fd_setsize)) [
    | inl e ↦ rw e (fd_set-Watches n w s (allowed n refl) (ground (arith, e)))
    | inr e ↦ rw e tt
  ]

  after_read-IsSound :
      (i : ℕ) (r : Option (ℤ × List ℕ)) (w : Watch)
      → Watches P sfd w
      → (i == sfd) ≡ false
      → IsSound P sfd (after_read i r w)
  unfolding after_read
  after_read-IsSound i none w s ne = tt
  after_read-IsSound i (some (ret, buf)) w s ne = elim (Bool-cases (is_negative ret)) [
    | inl e ↦ rw e s
    | inr e ↦
        rw e
          (elim (strlen buf)
            as (λ o. IsSound P sfd (elim o as (λ x. Progress) [
              | none ↦ undefined
              | some len ↦
                  if len == 0
                  then watching (record w { read_set = fd_clr i w.read_set })
                  else watching w
            ])) [
              | none ↦ tt
              | some len ↦ elim (Bool-cases (len == 0)) [
                | inl zero_len ↦ rw zero_len (fd_clr-Watches i w s ne)
                | inr some_len ↦ rw some_len s
              ]
            ])
  ]

  pub serve-IsSound :
      (i : ℕ) (t : Turn) (w : Watch)
      → Watches P sfd w
      → ((n : ℕ) → t.accepted ≡ pos n → P n)
      → IsSound P sfd (serve sfd i t w)
  unfolding serve
  serve-IsSound i t w s allowed = elim (Bool-cases (i == sfd)) [
    | inl e ↦ rw e (watch_client-IsSound t.accepted w s allowed)
    | inr e ↦ rw e (after_read-IsSound i (read_n (replicate 1024 0) (t.reads i)) w s e)
  ]
