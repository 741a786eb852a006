-- ===== src/Util.antt =====
-- util.c: `str_atoi` and `valid_port`. The rest of the file wraps system calls on sockets.
pub mod Sockets
pub mod Kernel
pub mod Listening
pub mod Decimal
mod Tests
use timeseries_database.Base.{
  ℕ, ◌+◌, ◌-◌, ◌*◌, ◌^◌, Bool, false, true, ◌||◌, Option, none, some, List, [], ◌∷◌, ltb,
  if◌then◌else◌,
}
use timeseries_database.Base.Int.{ℤ, pos, negsuc}

-- The loop of `str_atoi`. `none` is the overflow of an `int`, which is undefined.
unfoldable pub atoi_loop : ℕ → List ℕ → Option ℤ
atoi_loop value [] = some (pos value)
atoi_loop value (c ∷ line) =
    let next = value * 10 + (c - 48) in
    let rest = atoi_loop next line in
    if ltb c 48 || ltb 57 c then some (negsuc 0) else (if ltb next (2 ^ 31) then rest else none)

unfoldable pub str_atoi : List ℕ → Option ℤ
str_atoi [] = some (negsuc 0)
str_atoi (c ∷ line) = atoi_loop 0 (c ∷ line)

unfoldable pub valid_port : ℤ → Bool
valid_port (negsuc _) = false
valid_port (pos n) = if ltb n 1 || ltb 65535 n then false else true
