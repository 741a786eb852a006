-- ===== src/Net/Run.antt =====
-- A run of `net_select_run` from the socket on.
use mathlib.Core.Bool.{false≢true}
use timeseries_database.Base.{
  ℕ, zero, suc, ◌+◌, ◌<◌, ◌≤◌, ◌≡◌, refl, ◌⊎◌, inl, inr, Bool, true, false, ◌&&◌, List, [], ◌∷◌,
  ◌==◌, ltb, leb, Bool-cases, arith, if◌then◌else◌, ==_iff,
}
use timeseries_database.Base.Int.{ℤ, pos, negsuc}
use timeseries_database.Util.Sockets.{Calls, SysCall, Answer, init_net_socket}
use timeseries_database.Net.{
  fd_setsize, Watch, Turn, Progress, watching, closed, not_started, undefined, and_then, fd_set,
  serve, serve_each, select_loop, start, net_select_run,
}
use timeseries_database.Net.Watching.{
  Watches, IsSound, else_of, and_then-IsSound, if-IsSound, serve-IsSound,
}

module _ (P : ℕ → Type 0) (sfd : ℕ) where
  serve_each-IsSound :
      (fuel : ℕ) (t : Turn) (ready : ℕ → Bool) (i : ℕ) (w : Watch)
      → Watches P sfd w
      → ((n : ℕ) → t.accepted ≡ pos n → P n)
      → i ≤ fd_setsize
      → fd_setsize < i + fuel
      → IsSound P sfd (serve_each fuel sfd t ready i w)
  unfolding serve_each
  serve_each-IsSound zero t ready i w s allowed le enough = absurd (omega arith)
  serve_each-IsSound (suc fuel) t ready i w s allowed le enough =
      let step = if ready i then serve sfd i t w else watching w in
      let served =
        if-IsSound P sfd (ready i) (serve sfd i t w) (watching w)
          (serve-IsSound P sfd i t w s allowed) s in
      elim (Bool-cases (leb i w.maxfd)) [
        | inl e ↦
            let next : i + 1 ≤ fd_setsize = ground (arith, e, s.room) in
            rw e (
              and_then-IsSound P sfd step (serve_each fuel sfd t ready (i + 1)) served
                (λ w' s'. serve_each-IsSound fuel t ready (i + 1) w' s' allowed next (omega arith)))
        | inr e ↦ rw e s
      ]

  Allows : List Turn → Type 0
  Allows [] = Unit
  Allows (t ∷ turns) = ((n : ℕ) → t.accepted ≡ pos n → P n) × Allows turns

  select_loop-IsSound :
      (turns : List Turn) (w : Watch)
      → Watches P sfd w
      → Allows turns
      → IsSound P sfd (select_loop sfd turns w)
  unfolding select_loop Allows
  select_loop-IsSound [] w s allows = s
  select_loop-IsSound (t ∷ turns) w s (allowed, allows) =
      let (le, _) = s.covered sfd s.listens in
      let turn =
        serve_each-IsSound (fd_setsize + 1) t (λ i. w.read_set i && t.reported i) sfd w s allowed
          (omega (arith, le, s.room)) (omega arith) in
      let served = serve_each (fd_setsize + 1) sfd t (λ i. w.read_set i && t.reported i) sfd w in
      if-IsSound P sfd t.selected (and_then served (select_loop sfd turns)) closed
        (and_then-IsSound P sfd served (select_loop sfd turns) turn
          (λ w' s'. select_loop-IsSound turns w' s' allows))
        tt

-- A descriptor that a call of `accept` returned.
abbrev pub Accepted : List Turn → ℕ → Type 0
Accepted [] i = ⊥
Accepted (t ∷ turns) i = (t.accepted ≡ pos i) ⊎ Accepted turns i

Accepted-Allows :
    (P : ℕ → Type 0) (turns : List Turn)
    → ((i : ℕ) → Accepted turns i → P i)
    → (sfd : ℕ) → Allows P sfd turns
unfolding Allows
Accepted-Allows P [] all sfd = tt
Accepted-Allows P (t ∷ turns) all sfd =
    (λ n e. all n (inl e), Accepted-Allows P turns (λ i a. all i (inr a)) sfd)

-- What the start of a run at the descriptor `sfd` comes to.
abbrev pub IsSoundAt : ℤ → List Turn → Progress → Type 0
IsSoundAt (negsuc n) turns p = (p ≡ not_started) ⊎ (p ≡ undefined)
IsSoundAt (pos sfd) turns p = IsSound (λ i. (i ≡ sfd) ⊎ Accepted turns i) sfd p

start-IsSoundAt : (sfd : ℤ) (turns : List Turn) → IsSoundAt sfd turns (start sfd turns)
unfolding start
start-IsSoundAt (negsuc n) turns = elim (Bool-cases (n == 0)) [
  | inl e ↦ inl (rw e refl)
  | inr e ↦ inr (rw e refl)
]
start-IsSoundAt (pos sfd) turns = elim (Bool-cases (ltb sfd fd_setsize)) [
  | inl e ↦ rw e (
      select_loop-IsSound (λ i. (i ≡ sfd) ⊎ Accepted turns i) sfd turns
        (record { read_set = fd_set sfd (λ i. false); maxfd = sfd })
        (record {
          listens = rw ((==_iff sfd sfd).1 refl) refl;
          covered = λ i h. elim (Bool-cases (i == sfd)) [
            | inl same ↦ let e' = (==_iff i sfd).0 same in (omega (arith, e'), inl e')
            | inr other ↦ absurd (false≢true (else_of (i == sfd) true false other h))
          ];
          room = ground (arith, e);
        })
        (Accepted-Allows (λ i. (i ≡ sfd) ⊎ Accepted turns i) turns (λ i a. inr a) sfd))
  | inr e ↦ rw e tt
]

-- Whatever the system calls answer, net_select_run without a socket never watches. With the socket
-- sfd, as long as it watches, its set has sfd, each descriptor of the set is sfd or one that
-- accept returned, and lies within maxfd, which an fd_set has room for; the inner loop ends within
-- 1025 passes. A run that has closed sfd, that waits in read, or that does what is undefined, is
-- not restricted.
pub net_select_run-IsSoundAt :
    (answer : Calls → SysCall → Answer) (junk : ℤ) (host : List ℕ) (port backlog : ℤ)
    (turns : List Turn) (calls : Calls)
    → let sfd = (init_net_socket answer junk host port backlog calls).0 in
      let progress = (net_select_run answer junk host port backlog turns calls).0 in
      IsSoundAt sfd turns progress
unfolding net_select_run
net_select_run-IsSoundAt answer junk host port backlog turns calls =
    start-IsSoundAt ((init_net_socket answer junk host port backlog calls).0) turns
