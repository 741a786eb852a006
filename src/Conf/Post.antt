-- ===== src/Conf/Post.antt =====
-- `conf_post_validate` with the functions that it calls, and `conf_pre_validate`.
pub mod Distinct
mod Tests
use timeseries_database.Base.{
  ℕ, ◌≡◌, Bool, true, false, ◌&&◌, List, [], ◌∷◌, ◌==◌, length, map, if◌then◌else◌, Option, none,
  some,
}
use mathlib.Core.List.{reverse}
use timeseries_database.Base.Int.{ℤ, pos, negsuc}
use timeseries_database.Strings.{Status, done, error, no_memory, string_compare}
use timeseries_database.Conf.Pool.{ConfPool, is_unset, is_zero}
use timeseries_database.Conf.State.{World, Conf, on_done}
use timeseries_database.Conf.Tokens.{conf_validate_document, conf_validate_tokens}
use timeseries_database.Conf.Structure.{conf_validate_structure}

unfoldable pub conf_pre_validate : World → (is_multilevel : Bool) → Conf → Option (Status × Conf)
conf_pre_validate w is_multilevel cf = on_done (some (conf_validate_document w cf)) (λ cf.
    on_done (some (conf_validate_tokens w cf)) (λ cf.
      on_done (if is_multilevel then conf_validate_structure w cf else some (done, cf))
        (λ cf. some (done, record cf { sound = true }))))

abbrev pub conf_default_timeout : ℤ
conf_default_timeout = negsuc 0

abbrev pub conf_default_listen_backlog : ℤ
conf_default_listen_backlog = pos 512

abbrev pub conf_default_port : ℤ
conf_default_port = pos 5432

unfoldable pub conf_validate_pool : ConfPool → ConfPool
conf_validate_pool cp = record cp {
  timeout = if is_unset cp.timeout then conf_default_timeout else cp.timeout;
  backlog = if is_unset cp.backlog then conf_default_listen_backlog else cp.backlog;
  port = if is_unset cp.port then conf_default_port else cp.port;
}

unfoldable pub conf_pool_name_cmp : ConfPool → ConfPool → ℤ
conf_pool_name_cmp p1 p2 = string_compare p1.name p2.name

unfoldable pub conf_pool_addr_cmp : ConfPool → ConfPool → ℤ
conf_pool_addr_cmp p1 p2 = string_compare p1.addr p2.addr

abbrev same_int : ℤ → ℤ → Bool
same_int (pos m) (pos n) = m == n
same_int (negsuc m) (negsuc n) = m == n
same_int _ _ = false

unfoldable pub same_name : ConfPool → ConfPool → Bool
same_name p1 p2 = is_zero (conf_pool_name_cmp p1 p2)

unfoldable pub same_listen : ConfPool → ConfPool → Bool
same_listen p1 p2 = is_zero (conf_pool_addr_cmp p1 p2) && same_int p1.port p2.port

-- The loops over `p1` and the `p2` next to it: whether no two are the same.
unfoldable pub neighbours_differ : (ConfPool → ConfPool → Bool) → List ConfPool → Bool
neighbours_differ same (p1 ∷ p2 ∷ pools) =
    let rest = neighbours_differ same (p2 ∷ pools) in if same p1 p2 then false else rest
neighbours_differ same _ = true

-- What `qsort` does to an array.
abbrev pub Qsort : Type 0
Qsort = (ConfPool → ConfPool → ℤ) → List ConfPool → List ConfPool

-- The pools in the order of the array.
abbrev pub in_order : Conf → List ConfPool
in_order cf = reverse cf.pool.items

abbrev pub put_pools : Conf → List ConfPool → Conf
put_pools cf pools = record cf { pool = record cf.pool { items = reverse pools } }

unfoldable pub conf_post_validate : Qsort → Conf → Status × Conf
conf_post_validate qsort cf =
    if length cf.pool.items == 0
    then (error, cf)
    else (let by_addr = qsort conf_pool_addr_cmp (map conf_validate_pool (in_order cf)) in
        let by_name = qsort conf_pool_name_cmp by_addr in
        if neighbours_differ same_listen by_addr
        then (if neighbours_differ same_name by_name then done else error, put_pools cf by_name)
        else (error, put_pools cf by_addr))
