-- ===== src/Util/Tests.antt =====
-- `str_atoi` at texts, and `init_net_socket` when `listen` fails.
use timeseries_database.Base.{map, ◌≡◌, refl, none, some, [], ◌∷◌, arith}
use timeseries_database.Base.Int.{pos, negsuc}
use timeseries_database.Util.{str_atoi}
use timeseries_database.Util.Sockets.{Calls, SysCall, socket, listen, Answer, init_net_socket}
use timeseries_database.Util.Kernel.{open_sockets}
use timeseries_database.Util.Decimal.{decimal, str_atoi-decimal, str_atoi-error}

str_atoi-decimal_example : str_atoi (decimal 5432 []) ≡ some (pos 5432)
str_atoi-decimal_example = str_atoi-decimal 5432 (omega arith)

str_atoi_overflows : str_atoi (decimal 2147483648 []) ≡ none
str_atoi_overflows = str_atoi-decimal 2147483648 (omega arith)

str_atoi-error_example : str_atoi (decimal 10 (b'k' ∷ [])) ≡ some (negsuc 0)
str_atoi-error_example = str_atoi-error 10 b'k' [] (omega arith) refl

-- `listen` fails.
answers : Calls → SysCall → Answer
answers calls socket = record { result = pos 3; written = pos 0 }
answers calls (listen _ _) = record { result = negsuc 0; written = pos 0 }
answers calls _ = record { result = pos 0; written = pos 0 }

open_sockets-failed_listen :
    map (λ s. s.0) (open_sockets ((init_net_socket answers (pos 0) [] (pos 80) (pos 8) []).1))
    ≡ pos 3 ∷ []
unfolding init_net_socket answers
open_sockets-failed_listen = refl
