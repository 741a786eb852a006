-- ===== src/SkipList/Print.antt =====
-- `skip_list_print`: the keys that it writes, level by level.
use timeseries_database.Base.{ℕ, zero, suc, List, [], ◌∷◌, ◌==◌, if◌then◌else◌}
use timeseries_database.NodeHeap.{Ptr, out_of_fuel, Cmd, pure, ◌>>=◌, load, load_next}
use timeseries_database.SkipList.{SkipList}

-- The inner loop, from a node that is not the tail on.
unfoldable pub print_level : ℕ → SkipList → ℕ → Ptr → Cmd (List ℕ)
print_level zero st i cur = λ _. out_of_fuel
print_level (suc fuel) st i cur = if cur == st.tail then pure [] else do
  next ← load_next cur i
  n ← load cur
  keys ← print_level fuel st i next
  pure (n.key ∷ keys)

-- Levels `i - 1` down to 0, with the number of each that has a node.
unfoldable pub print_levels : ℕ → SkipList → ℕ → Cmd (List (ℕ × List ℕ))
unfolding print_level
print_levels fuel st zero = pure []
print_levels fuel st (suc i) = do
  cur ← load_next st.head i
  if cur == st.tail then print_levels fuel st i else do
    keys ← print_level fuel st i cur
    rest ← print_levels fuel st i
    pure ((i, keys) ∷ rest)

unfoldable pub skip_list_print : ℕ → SkipList → Cmd (List (ℕ × List ℕ))
unfolding print_levels
skip_list_print fuel st = print_levels fuel st st.max_level
