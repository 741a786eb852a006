-- ===== src/Strings/Tests.antt =====
-- The theorem on comparison at texts.
use timeseries_database.Base.{ℕ, ◌≡◌, ◌↔◌, refl, List, [], ◌∷◌}
use timeseries_database.Base.Int.{pos}
use timeseries_database.Strings.{text, has_nul, string_compare}
use timeseries_database.Strings.Compare.{string_compare-eq}

abbrev first : List ℕ
first = 97 ∷ []

abbrev second : List ℕ
second = 98 ∷ []

string_compare-eq_example : (string_compare (text first) (text second) ≡ pos 0) ↔ (first ≡ second)
string_compare-eq_example = string_compare-eq first second (unfold has_nul in refl)
