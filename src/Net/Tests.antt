-- ===== src/Net/Tests.antt =====
-- `net_select_run` at a client that sends two bytes, and what becomes of clients that close or fill
-- the buffer.
use timeseries_database.Base.{ℕ, ◌≡◌, refl, true, false, List, [], ◌∷◌, ◌==◌, replicate}
use timeseries_database.Base.Int.{ℤ, pos, negsuc}
use timeseries_database.Io.{Read, gave, gave_none, read_n, read_loop}
use timeseries_database.Util.Sockets.{Calls, SysCall, socket, Answer, init_net_socket}
use timeseries_database.Net.{
  Watch, Turn, watching, undefined, serve, after_read, fd_set, net_select_run,
}
use timeseries_database.Net.Run.{IsSoundAt, net_select_run-IsSoundAt}

-- The socket is 3, and every other call succeeds.
answers : Calls → SysCall → Answer
answers calls socket = record { result = pos 3; written = pos 0 }
answers calls _ = record { result = pos 0; written = pos 0 }

abbrev reports : ℕ → ℤ → List Read → Turn
reports fd accepted reads = record {
  selected = true;
  reported = λ i. i == fd;
  accepted = accepted;
  reads = λ i. reads;
}

-- A client comes, sends two bytes, and a signal interrupts the next call of `read`.
abbrev turns : List Turn
turns = reports 3 (pos 5) [] ∷ reports 5 (negsuc 0) (gave 104 (105 ∷ []) ∷ gave_none true ∷ []) ∷ []

net_select_run-IsSoundAt_example :
    let sfd = (init_net_socket answers (pos 0) [] (pos 80) (pos 8) []).0 in
    let progress = (net_select_run answers (pos 0) [] (pos 80) (pos 8) turns []).0 in
    IsSoundAt sfd turns progress
net_select_run-IsSoundAt_example =
    net_select_run-IsSoundAt answers (pos 0) [] (pos 80) (pos 8) turns []

abbrev two_watched : Watch
two_watched = record { read_set = fd_set 5 (fd_set 3 (λ i. false)); maxfd = 5 }

-- The client has closed: `read` returns 0, with `errno` as an earlier call left it.
serve-closed_client :
    serve 3 5 (reports 5 (pos 0) (gave_none false ∷ [])) two_watched ≡ watching two_watched
unfolding serve after_read read_n read_loop
serve-closed_client = refl

-- The client has sent 1024 bytes without a zero.
serve-full_buffer :
    serve 3 5 (reports 5 (pos 0) (gave 104 (replicate 1023 104) ∷ [])) two_watched ≡ undefined
unfolding serve after_read read_n read_loop
serve-full_buffer = refl
