-- ===== src/Conf/Post/Tests.antt =====
-- The theorem on `conf_post_validate` at two pools, with insertion as the sort.
use timeseries_database.Base.{
  ℕ, ◌≡◌, refl, true, false, List, [], ◌∷◌, map, if◌then◌else◌, arith, Bool-cases, inl, inr,
}
use mathlib.Core.List.{Perm}
use mathlib.Core.List.Perm
use timeseries_database.Base.Int.{ℤ, pos, negsuc}
use timeseries_database.Strings.{done, error, text, string_init, strncmp, string_compare, content}
use timeseries_database.Conf.Pool.{ConfPool}
use timeseries_database.Conf.State.{Conf}
use timeseries_database.Conf.Post.{
  conf_validate_pool, conf_pool_name_cmp, conf_pool_addr_cmp, in_order, conf_post_validate,
  same_name, same_listen, neighbours_differ,
}
use timeseries_database.Conf.Post.Distinct.{
  is_positive, IsAscending, AreDistinct, conf_post_validate-AreDistinct,
}

insert : (ConfPool → ConfPool → ℤ) → ConfPool → List ConfPool → List ConfPool
insert compare p [] = p ∷ []
insert compare p (q ∷ qs) =
    let rest = insert compare p qs in if is_positive (compare p q) then q ∷ rest else p ∷ q ∷ qs

insertion_sort : (ConfPool → ConfPool → ℤ) → List ConfPool → List ConfPool
insertion_sort compare [] = []
insertion_sort compare (p ∷ ps) = insert compare p (insertion_sort compare ps)

insert-perm :
    (compare : ConfPool → ConfPool → ℤ) (p : ConfPool) (qs : List ConfPool)
    → Perm (insert compare p qs) (p ∷ qs)
unfolding insert
insert-perm compare p [] = Perm.rfl
insert-perm compare p (q ∷ qs) = elim (Bool-cases (is_positive (compare p q))) [
  | inl above ↦
      rw (insert, above) (Perm.trans (Perm.cons q (insert-perm compare p qs)) (Perm.swap p q qs))
  | inr below ↦ rw (insert, below) Perm.rfl
]

insertion_sort-perm :
    (compare : ConfPool → ConfPool → ℤ) (ps : List ConfPool) → Perm (insertion_sort compare ps) ps
unfolding insertion_sort
insertion_sort-perm compare [] = Perm.rfl
insertion_sort-perm compare (p ∷ ps) =
    Perm.trans (insert-perm compare p (insertion_sort compare ps))
      (Perm.cons p (insertion_sort-perm compare ps))

strncmp_antisym :
    (s t : List ℕ) → is_positive (strncmp s t) ≡ true → is_positive (strncmp t s) ≡ false
unfolding strncmp
strncmp_antisym (c ∷ s) (d ∷ t) e = ground (arith, strncmp_antisym s t)
strncmp_antisym [] _ e = cc
strncmp_antisym (c ∷ s) [] e = cc

name_cmp-antisym :
    (p q : ConfPool)
    → is_positive (conf_pool_name_cmp p q) ≡ true
    → is_positive (conf_pool_name_cmp q p) ≡ false
unfolding conf_pool_name_cmp string_compare
name_cmp-antisym p q e = ground (arith, strncmp_antisym (content p.name) (content q.name))

insert-IsAscending :
    (p q : ConfPool) (qs : List ConfPool)
    → IsAscending conf_pool_name_cmp (q ∷ qs)
    → is_positive (conf_pool_name_cmp q p) ≡ false
    → IsAscending conf_pool_name_cmp (q ∷ insert conf_pool_name_cmp p qs)
unfolding insert
insert-IsAscending p q [] up qp = (qp, record {})
insert-IsAscending p q (r ∷ rs) (qr, up) qp =
    elim (Bool-cases (is_positive (conf_pool_name_cmp p r))) [
      | inl above ↦
          rw (insert, above) (qr, insert-IsAscending p r rs up (name_cmp-antisym p r above))
      | inr below ↦ rw (insert, below) (qp, (below, up))
    ]

insert_first-IsAscending :
    (p : ConfPool) (qs : List ConfPool)
    → IsAscending conf_pool_name_cmp qs
    → IsAscending conf_pool_name_cmp (insert conf_pool_name_cmp p qs)
unfolding insert
insert_first-IsAscending p [] up = record {}
insert_first-IsAscending p (q ∷ qs) up = elim (Bool-cases (is_positive (conf_pool_name_cmp p q))) [
  | inl above ↦ rw (insert, above) (insert-IsAscending p q qs up (name_cmp-antisym p q above))
  | inr below ↦ rw (insert, below) (below, up)
]

insertion_sort-IsAscending :
    (ps : List ConfPool) → IsAscending conf_pool_name_cmp (insertion_sort conf_pool_name_cmp ps)
unfolding insertion_sort
insertion_sort-IsAscending [] = record {}
insertion_sort-IsAscending (p ∷ ps) =
    insert_first-IsAscending p (insertion_sort conf_pool_name_cmp ps)
      (insertion_sort-IsAscending ps)

abbrev pool : List ℕ → List ℕ → ℤ → ConfPool
pool name addr port = record {
  name = text name;
  port = port;
  addr = text addr;
  workers = negsuc 0;
  timeout = negsuc 0;
  backlog = negsuc 0;
  max_slots = pos 7;
  datadir = string_init;
}

abbrev read : List ConfPool → Conf
read pools = record {
  arg = record { items = []; nalloc = 3 };
  pool = record { items = pools; nalloc = 8 };
  depth = 0;
  seq = false;
  valid_parser = false;
  valid_event = false;
  valid_token = false;
  sound = true;
  parsed = true;
  events = [];
  requests = 0;
}

-- The older pool is the last one.
abbrev two_pools : List ConfPool
two_pools = pool (b'a' ∷ []) (b'h' ∷ []) (negsuc 0) ∷ pool (b'b' ∷ []) (b'h' ∷ []) (pos 80) ∷ []

abbrev two_accepted : List ConfPool
two_accepted =
    conf_validate_pool (pool (b'b' ∷ []) (b'h' ∷ []) (pos 80))
    ∷ conf_validate_pool (pool (b'a' ∷ []) (b'h' ∷ []) (negsuc 0))
    ∷ []

two_pools_accepted : conf_post_validate insertion_sort (read two_pools) ≡ (done, read two_accepted)
unfolding conf_post_validate insertion_sort insert conf_pool_name_cmp conf_pool_addr_cmp
    string_compare strncmp same_name same_listen neighbours_differ conf_validate_pool
two_pools_accepted = refl

conf_post_validate-AreDistinct_example :
    AreDistinct (in_order (read two_accepted))
    × Perm (in_order (read two_accepted)) (map conf_validate_pool (in_order (read two_pools)))
conf_post_validate-AreDistinct_example =
    conf_post_validate-AreDistinct insertion_sort insertion_sort-perm insertion_sort-IsAscending
      (read two_pools) (read two_accepted) two_pools_accepted

-- The same name twice.
same_names_rejected :
    (conf_post_validate insertion_sort
      (read (pool (b'a' ∷ []) (b'h' ∷ []) (pos 80) ∷ pool (b'a' ∷ []) (b'i' ∷ []) (pos 80) ∷ []))).0
    ≡ error
unfolding conf_post_validate insertion_sort insert conf_pool_name_cmp conf_pool_addr_cmp
    string_compare strncmp same_name same_listen neighbours_differ conf_validate_pool
same_names_rejected = refl
