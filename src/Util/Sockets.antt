-- ===== src/Util/Sockets.antt =====
-- The functions of util.c on sockets. A run is the list of the system calls that it makes, and what
-- each of them answers is an argument.
use timeseries_database.Base.{
  ℕ, ◌-◌, ◌%◌, ◌^◌, ◌==◌, Bool, false, Option, none, some, List, [], ◌∷◌, bit_and, bit_or, not32,
  if◌then◌else◌,
}
use timeseries_database.Base.Int.{ℤ, pos, negsuc, is_negative}

-- The options of `setsockopt` and `getsockopt`.
pub data SocketOption : Type 0 where
  so_reuseaddr so_keepalive so_linger so_sndbuf so_rcvbuf so_error tcp_nodelay : SocketOption

-- A bound address is the text that `inet_pton` read, or `none` for the zeros of `memset`.
pub data SysCall : Type 0 where
  socket : SysCall
  inet_pton : (host : List ℕ) → SysCall
  bind : (sd : ℤ) (address : Option (List ℕ)) (port : ℕ) → SysCall
  listen : (sd : ℤ) (backlog : ℤ) → SysCall
  setsockopt : (sd : ℤ) (option : SocketOption) (values : List ℤ) → SysCall
  getsockopt : (sd : ℤ) (option : SocketOption) → SysCall
  get_flags : (sd : ℤ) → SysCall
  set_flags : (sd : ℤ) (flags : ℕ) → SysCall
  close : (sd : ℤ) → SysCall

-- What a call returns, and what it writes through its last pointer.
pub record Answer : Type 0 where
  pub result : ℤ
  pub written : ℤ

-- The calls with their answers, the last one first.
abbrev pub Calls : Type 0
Calls = List (SysCall × Answer)

abbrev pub Run : Type 0 → Type 0
Run A = Calls → A × Calls

abbrev pub pure : {A : Type 0} → A → Run A
pure a calls = (a, calls)

infixl 5 ◌>>=◌
abbrev pub ◌>>=◌ : {A B : Type 0} → Run A → (A → Run B) → Run B
(m >>= k) calls = let (a, calls) = m calls in k a calls

infixl 5 ◌>>◌
abbrev pub ◌>>◌ : {A B : Type 0} → Run A → Run B → Run B
(m >> n) calls = let (a, calls) = m calls in n calls

abbrev pub is_zero : ℤ → Bool
is_zero (pos n) = n == 0
is_zero (negsuc n) = false

abbrev pub minus_one : ℤ
minus_one = negsuc 0

abbrev pub is_minus_one : ℤ → Bool
is_minus_one (negsuc n) = n == 0
is_minus_one (pos n) = false

-- A `uint16_t` from an `int`.
abbrev pub port16 : ℤ → ℕ
port16 (pos n) = n % 2 ^ 16
port16 (negsuc n) = 2 ^ 16 - 1 - n % 2 ^ 16

-- The address of `memset` stays when `inet_pton` cannot read the text.
abbrev pub address_of : (host : List ℕ) → ℤ → Option (List ℕ)
address_of host (pos n) = if n == 0 then none else some host
address_of host (negsuc n) = none

module _ (answer : Calls → SysCall → Answer) where
  abbrev pub call : SysCall → Run Answer
  call c calls = let a = answer calls c in (a, (c, a) ∷ calls)

  -- `o_nonblock` is `O_NONBLOCK`.
  unfoldable pub set_socket_blocking : (o_nonblock : ℕ) → ℤ → Run ℤ
  set_socket_blocking o_nonblock sd = do
    got ← call (get_flags sd)
    elim got.result [
      | negsuc n ↦ pure (negsuc n)
      | pos flags ↦ do set ← call (set_flags sd (bit_and flags (not32 o_nonblock))); pure set.result
    ]

  unfoldable pub set_socket_nonblocking : (o_nonblock : ℕ) → ℤ → Run ℤ
  set_socket_nonblocking o_nonblock sd = do
    got ← call (get_flags sd)
    elim got.result [
      | negsuc n ↦ pure (negsuc n)
      | pos flags ↦ do set ← call (set_flags sd (bit_or flags o_nonblock)); pure set.result
    ]

  -- `yes` is never written: its value is `junk`. Only `inet_pton` closes the socket on failure.
  unfoldable pub init_net_socket : (junk : ℤ) (host : List ℕ) (port backlog : ℤ) → Run ℤ
  init_net_socket junk host port backlog = do
    opened ← call socket
    let sock = opened.result
    if is_minus_one sock then pure minus_one else do
      read ← call (inet_pton host)
      if is_negative read.result then (do call (close sock); pure minus_one) else do
        bound ← call (bind sock (address_of host read.result) (port16 port))
        if is_negative bound.result then pure minus_one else do
          listening ← call (listen sock backlog)
          if is_negative listening.result then pure minus_one else do
            set ← call (setsockopt sock so_reuseaddr (junk ∷ []))
            if is_negative set.result then pure minus_one else pure sock

  abbrev set_option : ℤ → SocketOption → List ℤ → Run ℤ
  set_option sd option values = do set ← call (setsockopt sd option values); pure set.result

  abbrev pub set_socket_reuseaddr : ℤ → Run ℤ
  set_socket_reuseaddr sd = set_option sd so_reuseaddr (pos 1 ∷ [])

  abbrev pub set_socket_tcpnodelay : ℤ → Run ℤ
  set_socket_tcpnodelay sd = set_option sd tcp_nodelay (pos 1 ∷ [])

  abbrev pub set_socket_linger : (sd timeout : ℤ) → Run ℤ
  set_socket_linger sd timeout = set_option sd so_linger (pos 1 ∷ timeout ∷ [])

  abbrev pub set_socket_tcpkeepalive : ℤ → Run ℤ
  set_socket_tcpkeepalive sd = set_option sd so_keepalive (pos 1 ∷ [])

  abbrev pub set_socket_sndbuf : (sd size : ℤ) → Run ℤ
  set_socket_sndbuf sd size = set_option sd so_sndbuf (size ∷ [])

  abbrev pub set_socket_rcvbuf : (sd size : ℤ) → Run ℤ
  set_socket_rcvbuf sd size = set_option sd so_rcvbuf (size ∷ [])

  -- The status, and what `errno` is set to.
  abbrev pub get_socket_soerror : ℤ → Run (ℤ × Option ℤ)
  get_socket_soerror sd = do
    got ← call (getsockopt sd so_error)
    pure (got.result, if is_zero got.result then some got.written else none)

  abbrev pub get_socket_sndbuf : ℤ → Run ℤ
  get_socket_sndbuf sd = do
    got ← call (getsockopt sd so_sndbuf)
    pure (if is_negative got.result then got.result else got.written)
