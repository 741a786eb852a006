-- ===== src/Strings/Compare.antt =====
-- `string_compare` decides whether two texts are equal.
use timeseries_database.Base.{ℕ, false, ◌≡◌, ◌↔◌, refl, subst, List, [], ◌∷◌, length, arith}
use timeseries_database.Base.Int.{pos}
use timeseries_database.NodeHeap.{eq_self}
use timeseries_database.Strings.{text, has_nul, strncmp, string_compare}

strncmp_self : (s : List ℕ) → strncmp s s ≡ pos 0
unfolding strncmp
strncmp_self [] = refl
strncmp_self (c ∷ s) = ground (arith, strncmp_self s)

strncmp_eq : (s t : List ℕ) → length s ≡ length t → has_nul s ≡ false → strncmp s t ≡ pos 0 → s ≡ t
unfolding strncmp has_nul
strncmp_eq [] [] e n z = refl
strncmp_eq [] (d ∷ t) e n z = absurd (omega arith)
strncmp_eq (c ∷ s) [] e n z = absurd (omega arith)
strncmp_eq (c ∷ s) (d ∷ t) e n z = ground (arith, strncmp_eq s t (omega arith))

-- Two texts, the first without a 0, compare as 0 exactly when they have the same bytes.
pub string_compare-eq :
    (s t : List ℕ) → has_nul s ≡ false → (string_compare (text s) (text t) ≡ pos 0) ↔ (s ≡ t)
unfolding string_compare
string_compare-eq s t n = (
  λ e. equal (ground arith) (ground arith),
  λ e.
      subst (λ t. string_compare (text s) (text t) ≡ pos 0) e
        (rw (eq_self (length s)) (strncmp_self s)),
)
  where
    equal : length s ≡ length t → strncmp s t ≡ pos 0 → s ≡ t
    equal l z = strncmp_eq s t l n z
