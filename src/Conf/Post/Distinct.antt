-- ===== src/Conf/Post/Distinct.antt =====
-- The pools of an accepted file have different names.
use timeseries_database.Base.{
  ℕ, ◌≡◌, refl, ap, sym, subst, ◌∙◌, Bool, true, false, List, [], ◌∷◌, ◌==◌, ltb, length, map,
  if◌then◌else◌, arith,
}
use mathlib.Core.List.{reverse-reverse, Perm}
use mathlib.Core.List.Perm
use timeseries_database.Base.Int.{ℤ, pos, negsuc}
use timeseries_database.Strings.{CString, Status, done, error, strncmp, string_compare, content}
use timeseries_database.Conf.Pool.{ConfPool, is_zero}
use timeseries_database.Conf.State.{Conf}
use timeseries_database.Conf.Post.{
  Qsort, conf_validate_pool, conf_pool_name_cmp, conf_pool_addr_cmp, put_pools, same_name,
  same_listen, neighbours_differ, in_order, conf_post_validate,
}

abbrev pub is_positive : ℤ → Bool
is_positive (pos n) = ltb 0 n
is_positive (negsuc _) = false

abbrev is_negative : ℤ → Bool
is_negative (pos _) = false
is_negative (negsuc _) = true

-- No element compares above the next.
abbrev pub IsAscending : (ConfPool → ConfPool → ℤ) → List ConfPool → Type 0
IsAscending compare [] = Unit
IsAscending compare (p ∷ []) = Unit
IsAscending compare (p ∷ q ∷ ps) =
    (is_positive (compare p q) ≡ false) × IsAscending compare (q ∷ ps)

abbrev pub AllDiffer : ConfPool → List ConfPool → Type 0
AllDiffer p [] = Unit
AllDiffer p (q ∷ qs) = (same_name p q ≡ false) × AllDiffer p qs

-- Every two of the pools have names that do not compare as 0.
abbrev pub AreDistinct : List ConfPool → Type 0
AreDistinct [] = Unit
AreDistinct (p ∷ ps) = AllDiffer p ps × AreDistinct ps

strncmp_trans :
    (s t u : List ℕ)
    → is_negative (strncmp s t) ≡ true
    → is_negative (strncmp t u) ≡ true
    → is_negative (strncmp s u) ≡ true
unfolding strncmp
strncmp_trans (c ∷ s) (d ∷ t) (e ∷ u) st tu = ground (arith, strncmp_trans s t u)
strncmp_trans [] _ _ st tu = cc
strncmp_trans (c ∷ s) [] _ st tu = cc
strncmp_trans (c ∷ s) (d ∷ t) [] st tu = cc

string_compare_trans :
    (s t u : CString)
    → is_negative (string_compare s t) ≡ true
    → is_negative (string_compare t u) ≡ true
    → is_negative (string_compare s u) ≡ true
unfolding string_compare
string_compare_trans s t u st tu = ground (arith, strncmp_trans (content s) (content t) (content u))

-- The names stand in strictly ascending order.
abbrev Less : ConfPool → ConfPool → Type 0
Less p q = is_negative (conf_pool_name_cmp p q) ≡ true

abbrev IsBelow : ConfPool → List ConfPool → Type 0
IsBelow p [] = Unit
IsBelow p (q ∷ qs) = Less p q × IsBelow p qs

Less-trans : (p q r : ConfPool) → Less p q → Less q r → Less p r
unfolding conf_pool_name_cmp
Less-trans p q r pq qr = string_compare_trans p.name q.name r.name pq qr

IsBelow-trans : (p q : ConfPool) (rs : List ConfPool) → Less p q → IsBelow q rs → IsBelow p rs
IsBelow-trans p q [] pq below = record {}
IsBelow-trans p q (r ∷ rs) pq (qr, below) = (Less-trans p q r pq qr, IsBelow-trans p q rs pq below)

differ-not_positive : (r : ℤ) → is_zero r ≡ false → is_positive r ≡ false → is_negative r ≡ true
differ-not_positive (pos n) z p = ground arith
differ-not_positive (negsuc n) z p = refl

Less-same_name : (p q : ConfPool) → Less p q → same_name p q ≡ false
unfolding same_name
Less-same_name p q e = negative (conf_pool_name_cmp p q) e
  where
    negative : (r : ℤ) → is_negative r ≡ true → is_zero r ≡ false
    negative (pos n) e = cc
    negative (negsuc n) e = refl

AllDiffer-IsBelow : (p : ConfPool) (qs : List ConfPool) → IsBelow p qs → AllDiffer p qs
AllDiffer-IsBelow p [] below = record {}
AllDiffer-IsBelow p (q ∷ qs) (pq, below) = (Less-same_name p q pq, AllDiffer-IsBelow p qs below)

neighbours-∷ :
    (p q : ConfPool) (ps : List ConfPool)
    → neighbours_differ same_name (p ∷ q ∷ ps) ≡ true
    → (same_name p q ≡ false) × (neighbours_differ same_name (q ∷ ps) ≡ true)
unfolding neighbours_differ
neighbours-∷ p q ps e = (ground arith, ground arith)

-- Sorted, and with neighbours that differ.
sorted-IsBelow :
    (p : ConfPool) (ps : List ConfPool)
    → IsAscending conf_pool_name_cmp (p ∷ ps)
    → neighbours_differ same_name (p ∷ ps) ≡ true
    → IsBelow p ps × AreDistinct (p ∷ ps)
unfolding same_name
sorted-IsBelow p [] up e = (record {}, (record {}, record {}))
sorted-IsBelow p (q ∷ ps) (pq, up) e =
    let (differ, e') = neighbours-∷ p q ps e in
    let (above, distinct) = sorted-IsBelow q ps up e' in
    let first = differ-not_positive (conf_pool_name_cmp p q) differ pq in
    let below : IsBelow p (q ∷ ps) = (first, IsBelow-trans p q ps first above) in
    (below, (AllDiffer-IsBelow p (q ∷ ps) below, distinct))

sorted-AreDistinct :
    (ps : List ConfPool)
    → IsAscending conf_pool_name_cmp ps
    → neighbours_differ same_name ps ≡ true
    → AreDistinct ps
sorted-AreDistinct [] up e = record {}
sorted-AreDistinct (p ∷ ps) up e = (sorted-IsBelow p ps up e).1

-- When `conf_post_validate` accepts, both loops went through.
accepted :
    (empty listens names : Bool) (by_name by_addr cf cf' : Conf)
    → ◌≡◌ {A = Status × Conf}
        (if empty
          then (error, cf)
          else (if listens then (if names then done else error, by_name) else (error, by_addr)))
        (done, cf')
    → (names ≡ true) × (by_name ≡ cf')
accepted false true true by_name by_addr cf cf' e = (refl, ap (λ r. r.1) e)
accepted true _ _ by_name by_addr cf cf' e = let wrong = ap (λ r. r.0) e in cc
accepted false false _ by_name by_addr cf cf' e = let wrong = ap (λ r. r.0) e in cc
accepted false true false by_name by_addr cf cf' e = let wrong = ap (λ r. r.0) e in cc

-- If conf_post_validate accepts, every two pools in the array have names that do not compare as
-- equal, and the array holds the pools that were read, each with its defaults, in some order.
-- qsort gives a permutation, which is ascending when the pools are compared by name.
pub conf_post_validate-AreDistinct :
    (qsort : Qsort)
    → ((compare : ConfPool → ConfPool → ℤ) (ps : List ConfPool) → Perm (qsort compare ps) ps)
    → ((ps : List ConfPool) → IsAscending conf_pool_name_cmp (qsort conf_pool_name_cmp ps))
    → (cf cf' : Conf) → conf_post_validate qsort cf ≡ (done, cf')
    → AreDistinct (in_order cf') × Perm (in_order cf') (map conf_validate_pool (in_order cf))
unfolding conf_post_validate
conf_post_validate-AreDistinct qsort perm up cf cf' e =
    subst (λ ps. AreDistinct ps × Perm ps (map conf_validate_pool (in_order cf)))
      (sym (reverse-reverse by_name) ∙ ap in_order (ends.1))
      (
        sorted-AreDistinct by_name (up by_addr) ends.0,
        Perm.trans (perm conf_pool_name_cmp by_addr) (perm conf_pool_addr_cmp validated),
      )
  where
    validated : List ConfPool
    validated = map conf_validate_pool (in_order cf)

    by_addr : List ConfPool
    by_addr = qsort conf_pool_addr_cmp validated

    by_name : List ConfPool
    by_name = qsort conf_pool_name_cmp by_addr

    ends : (neighbours_differ same_name by_name ≡ true) × (put_pools cf by_name ≡ cf')
    ends =
        accepted (length cf.pool.items == 0) (neighbours_differ same_listen by_addr)
          (neighbours_differ same_name by_name) (put_pools cf by_name) (put_pools cf by_addr) cf cf'
          e
