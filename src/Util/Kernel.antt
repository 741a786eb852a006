-- ===== src/Util/Kernel.antt =====
-- What the system calls of `init_net_socket` do to the sockets that are open.
use timeseries_database.Base.{
  ℕ, ◌≡◌, refl, Bool, true, false, Option, none, some, List, [], ◌∷◌, ◌==◌, ==_iff, if◌then◌else◌,
}
use timeseries_database.Base.Int.{ℤ, pos, negsuc, is_negative}
use timeseries_database.Util.Sockets.{
  SocketOption, SysCall, socket, bind, listen, setsockopt, close, Answer, Calls, is_minus_one,
}

abbrev pub eq_int : ℤ → ℤ → Bool
eq_int (pos m) (pos n) = m == n
eq_int (negsuc m) (negsuc n) = m == n
eq_int _ _ = false

pub eq_int_self : (n : ℤ) → eq_int n n ≡ true
eq_int_self (pos n) = (==_iff n n).1 refl
eq_int_self (negsuc n) = (==_iff n n).1 refl

-- An address and a port; `none` is every address of the machine.
abbrev pub Bound : Type 0
Bound = Option (List ℕ) × ℕ

-- What a socket was bound to; what it was bound to when it was made to listen, and the backlog; and
-- its options, the last one first, with what it was bound to when each was set.
pub record Socket : Type 0 where
  pub bound : Option Bound
  pub listening : Option (Option Bound × ℤ)
  pub options : List (SocketOption × List ℤ × Option Bound)

abbrev pub unbound : Socket
unbound = record { bound = none; listening = none; options = [] }

-- The open sockets by their descriptors.
abbrev pub Open : Type 0
Open = List (ℤ × Socket)

abbrev pub change : ℤ → (Socket → Socket) → Open → Open
change sd f [] = []
change sd f ((d, s) ∷ open_) =
    let rest = change sd f open_ in if eq_int sd d then (d, f s) ∷ open_ else (d, s) ∷ rest

abbrev pub drop_socket : ℤ → Open → Open
drop_socket sd [] = []
drop_socket sd ((d, s) ∷ open_) =
    let rest = drop_socket sd open_ in if eq_int sd d then open_ else (d, s) ∷ rest

-- A call that succeeds. `close` frees the descriptor whatever it returns.
abbrev pub effect : SysCall → ℤ → Open → Open
effect socket result open_ = (result, unbound) ∷ open_
effect (bind sd address port) result open_ =
    change sd (λ s. record s { bound = some (address, port) }) open_
effect (listen sd backlog) result open_ =
    change sd (λ s. record s { listening = some (s.bound, backlog) }) open_
effect (setsockopt sd option values) result open_ =
    change sd (λ s. record s { options = (option, values, s.bound) ∷ s.options }) open_
effect _ result open_ = open_

abbrev pub fails : SysCall → ℤ → Bool
fails socket result = is_minus_one result
fails _ result = is_negative result

abbrev pub after_call : SysCall → Answer → Open → Open
after_call (close sd) a open_ = drop_socket sd open_
after_call c a open_ = if fails c a.result then open_ else effect c a.result open_

abbrev pub open_sockets : Calls → Open
open_sockets [] = []
open_sockets ((c, a) ∷ calls) = after_call c a (open_sockets calls)

-- No call of a run failed.
abbrev pub AllSucceed : Calls → Type 0
AllSucceed [] = Unit
AllSucceed ((c, a) ∷ calls) = (fails c a.result ≡ false) × AllSucceed calls

-- The last call of a run failed, and those before it did not.
abbrev pub LastFails : SysCall → Calls → Type 0
LastFails c [] = ⊥
LastFails c ((d, a) ∷ calls) = (d ≡ c) × (fails d a.result ≡ true) × AllSucceed calls
