-- ===== src/Util/Listening.antt =====
-- What a run of `init_net_socket` leaves open.
use timeseries_database.Base.{ℕ, ◌≡◌, ◌⊎◌, Option, some, List, [], ◌∷◌}
use timeseries_database.Base.Int.{ℤ}
use timeseries_database.Util.Sockets.{
  SysCall, socket, bind, listen, setsockopt, close, inet_pton, so_reuseaddr, Answer, Calls,
  minus_one, port16, address_of,
}
use timeseries_database.Util.Kernel.{Socket, Bound, open_sockets, AllSucceed, LastFails}

-- A call and its answer in a run.
abbrev pub Made : SysCall → Answer → Calls → Type 0
Made c r [] = ⊥
Made c r ((d, a) ∷ calls) = ((d ≡ c) × (a ≡ r)) ⊎ Made c r calls

-- No call failed, and the only open socket is the result: it was bound to the port and to the
-- address that `inet_pton` read, then made to listen, and the option was set last.
abbrev pub Listens : (junk : ℤ) (host : List ℕ) (port backlog : ℤ) → ℤ × Calls → Type 0
Listens junk host port backlog (sock, calls) =
    AllSucceed calls
    × ((read : Answer) × Made (inet_pton host) read calls
        × (let bound : Option Bound = some (address_of host read.result, port16 port) in
            open_sockets calls
            ≡ (
              sock,
              record {
                bound = bound;
                listening = some (bound, backlog);
                options = (so_reuseaddr, junk ∷ [], bound) ∷ [];
              },
            )
              ∷ []))

-- A failure of `socket` or of `inet_pton`, the only calls that did not succeed, and no open socket.
abbrev pub IsClean : (host : List ℕ) → ℤ × Calls → Type 0
IsClean host (result, calls) =
    (result ≡ minus_one)
    × (open_sockets calls ≡ [])
    × (LastFails socket calls
        ⊎ ((sock : ℤ) × (closed : Answer) × (before : Calls) × (calls
              ≡ (close sock, closed) ∷ before)
            × LastFails (inet_pton host) before))

-- The call that failed last.
abbrev pub Cause : (junk : ℤ) (port backlog : ℤ) (sock : ℤ) → Calls → Type 0
Cause junk port backlog sock calls =
    ((address : Option (List ℕ)) × LastFails (bind sock address (port16 port)) calls)
    ⊎ (LastFails (listen sock backlog) calls
        ⊎ LastFails (setsockopt sock so_reuseaddr (junk ∷ [])) calls)

-- A failure of `bind`, `listen` or `setsockopt`, which ends the run: the socket stays open.
abbrev pub Leaks : (junk : ℤ) (port backlog : ℤ) → ℤ × Calls → Type 0
Leaks junk port backlog (result, calls) =
    (result ≡ minus_one)
    × ((sock : ℤ) × (s : Socket) × (open_sockets calls ≡ (sock, s) ∷ [])
        × Cause junk port backlog sock calls)

abbrev pub Outcome : (junk : ℤ) (host : List ℕ) (port backlog : ℤ) → ℤ × Calls → Type 0
Outcome junk host port backlog end =
    Listens junk host port backlog end ⊎ (IsClean host end ⊎ Leaks junk port backlog end)
