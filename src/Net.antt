-- ===== src/Net.antt =====
-- net_wrapper.c: `net_select_run`. What each return of `select` leaves in the set, and what the
-- calls of `accept` and `read` give until the next one, is an argument. The call of `select` has an
-- empty argument before the last one, which is read as if it were not there.
pub mod Watching
pub mod Run
mod Tests
use timeseries_database.Base.{
  ℕ, zero, suc, ◌+◌, Bool, true, false, ◌&&◌, Option, none, some, List, [], ◌∷◌, ◌==◌, ltb, leb,
  replicate, if◌then◌else◌,
}
use timeseries_database.Base.Int.{ℤ, pos, negsuc, is_negative}
use timeseries_database.Io.{Read, read_n}
use timeseries_database.Util.Sockets.{Calls, SysCall, Answer, init_net_socket}

-- What an `fd_set` has room for.
abbrev pub fd_setsize : ℕ
fd_setsize = 1024

-- `read_set[0]` and `maxfd`.
pub record Watch : Type 0 where
  pub read_set : ℕ → Bool
  pub maxfd : ℕ

-- A return of `select`: whether it is not -1, and the descriptors that it reports; what `accept`
-- returns then, and what the calls of `read` on each descriptor do.
pub record Turn : Type 0 where
  pub selected : Bool
  pub reported : ℕ → Bool
  pub accepted : ℤ
  pub reads : ℕ → List Read

-- How far a run has come: it watches, it has closed the listening socket and returned, there was no
-- such socket, it has done what is undefined, or `read` waits.
pub data Progress : Type 0 where
  watching : Watch → Progress
  closed not_started undefined blocked out_of_fuel : Progress

abbrev pub and_then : Progress → (Watch → Progress) → Progress
and_then (watching w) k = k w
and_then closed k = closed
and_then not_started k = not_started
and_then undefined k = undefined
and_then blocked k = blocked
and_then out_of_fuel k = out_of_fuel

-- `FD_SET` and `FD_CLR`.
abbrev pub fd_set : ℕ → (ℕ → Bool) → ℕ → Bool
fd_set fd set i = if i == fd then true else set i

abbrev pub fd_clr : ℕ → (ℕ → Bool) → ℕ → Bool
fd_clr fd set i = if i == fd then false else set i

-- `FD_SET` of a descriptor that the set has no room for is undefined.
unfoldable pub watch_client : ℤ → Watch → Progress
watch_client (negsuc n) w = if n == 0 then closed else undefined
watch_client (pos cfd) w =
    if ltb cfd fd_setsize
    then watching (record {
      read_set = fd_set cfd w.read_set;
      maxfd = if ltb w.maxfd cfd then cfd else w.maxfd;
    })
    else undefined

-- `none` runs past the end.
abbrev pub strlen : List ℕ → Option ℕ
strlen [] = none
strlen (c ∷ buf) =
    let rest = strlen buf in
    if c == 0 then some 0 else elim rest [ none ↦ none | some n ↦ some (n + 1) ]

-- What follows `read_n`.
unfoldable pub after_read : ℕ → Option (ℤ × List ℕ) → Watch → Progress
after_read i none w = blocked
after_read i (some (ret, buf)) w = if is_negative ret then watching w else elim (strlen buf) [
  | none ↦ undefined
  | some len ↦
      if len == 0 then watching (record w { read_set = fd_clr i w.read_set }) else watching w
]

-- A pass of the inner loop for a descriptor that is ready.
unfoldable pub serve : (sfd i : ℕ) → Turn → Watch → Progress
serve sfd i t w =
    if i == sfd
    then watch_client t.accepted w
    else after_read i (read_n (replicate 1024 0) (t.reads i)) w

-- The inner loop from `i` on: `read_set[1]` has what `select` left of the set.
unfoldable pub serve_each :
    (fuel : ℕ) (sfd : ℕ) (t : Turn) (ready : ℕ → Bool) (i : ℕ) → Watch → Progress
serve_each zero sfd t ready i w = out_of_fuel
serve_each (suc fuel) sfd t ready i w =
    if leb i w.maxfd
    then and_then (if ready i then serve sfd i t w else watching w)
        (serve_each fuel sfd t ready (i + 1))
    else watching w

-- The outer loop, up to the last return of `select`.
unfoldable pub select_loop : (sfd : ℕ) → List Turn → Watch → Progress
select_loop sfd [] w = watching w
select_loop sfd (t ∷ turns) w =
    if t.selected
    then and_then (serve_each (fd_setsize + 1) sfd t (λ i. w.read_set i && t.reported i) sfd w)
        (select_loop sfd turns)
    else closed

unfoldable pub start : ℤ → List Turn → Progress
start (negsuc n) turns = if n == 0 then not_started else undefined
start (pos sfd) turns =
    if ltb sfd fd_setsize
    then select_loop sfd turns (record { read_set = fd_set sfd (λ i. false); maxfd = sfd })
    else undefined

unfoldable pub net_select_run :
    (answer : Calls → SysCall → Answer) (junk : ℤ) (host : List ℕ) (port backlog : ℤ)
    → List Turn
    → Calls
    → Progress × Calls
net_select_run answer junk host port backlog turns calls =
    let (sfd, calls) = init_net_socket answer junk host port backlog calls in
    (start sfd turns, calls)
