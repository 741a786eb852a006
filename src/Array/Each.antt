-- ===== src/Array/Each.antt =====
-- `array_each` calls the callback on the elements in order, up to the first failure.
use timeseries_database.Base.{
  ℕ, zero, suc, ◌+◌, ◌*◌, ◌^◌, ◌≤◌, ◌<◌, ◌≡◌, refl, ap, ◌∙◌, List, [], ◌∷◌, some, ◌==◌,
  if◌then◌else◌, arith, u64, Bool-cases, lt→ltb, inl, inr,
}
use timeseries_database.NodeHeap.{eq_of_ne}
use native.Mathlib.Nat.{mul-le-mul_left}
use timeseries_database.Array.{Array, array_get, array_n, each_loop, array_each}

-- The addresses of `n` elements of `size` bytes, from `elem` on.
abbrev pub elements : (elem size n : ℕ) → List ℕ
elements elem size zero = []
elements elem size (suc n) = elem ∷ elements (elem + size) size n

-- A callback along a list, up to the first status that is not 0.
abbrev pub run_each : {D : Type 0} → (ℕ → D → ℕ × D) → List ℕ → D → ℕ × D
run_each func [] d = (0, d)
run_each func (x ∷ xs) d =
    let (status, after) = func x d in
    let rest = run_each func xs after in if status == 0 then rest else (status, after)

-- The callback does not change the array.
abbrev pub Keeps : {D : Type 0} → (D → Array) → (ℕ → D → ℕ × D) → Type 0
Keeps array_of func = (x : ℕ) (d : _) → array_of (func x d).1 ≡ array_of d

module _ (a : Array) (fits : a.size * a.nelem < 2 ^ 64) where
  get-elem : (i : ℕ) → i < a.nelem → array_get a i ≡ some (a.elem + a.size * i)
  unfolding array_get
  get-elem i lt =
      let below : a.size * i ≤ a.size * a.nelem = mul-le-mul_left a.size (omega arith) in
      let small : u64 (a.size * i) ≡ a.size * i = omega (arith, below) in
      rw (eq_of_ne a.nelem 0 (λ z. omega arith), lt→ltb i a.nelem lt)
        (ap (λ t. some (a.elem + t)) small)

  each_loop-run_each :
      {D : Type 0} (array_of : D → Array) (func : ℕ → D → ℕ × D) (left i : ℕ) (d : D)
      → Keeps array_of func
      → array_of d ≡ a
      → i + left ≡ a.nelem
      → each_loop array_of func left i d
        ≡ some (run_each func (elements (a.elem + a.size * i) a.size left) d)
  unfolding each_loop
  each_loop-run_each array_of func zero i d keeps here e = refl
  each_loop-run_each array_of func (suc left) i d keeps here e =
      let lt : i < a.nelem = omega arith in
      let x = a.elem + a.size * i in
      let after = (func x d).1 in
      let got : array_get (array_of d) i ≡ some x = rw here (get-elem i lt) in
      let address : a.elem + a.size * (i + 1) ≡ x + a.size = omega arith in
      let rest =
        each_loop-run_each array_of func left (i + 1) after keeps (keeps x d ∙ here)
          (omega arith) in
      elim (Bool-cases ((func x d).0 == 0)) [
        | inl go ↦
            rw (each_loop, got, go)
              (rest ∙ ap (λ t. some (run_each func (elements t a.size left) after)) address)
        | inr halt ↦ rw (each_loop, got, halt) refl
      ]

-- On an array that is not empty, and whose size does not wrap around, array_each with a callback
-- that is not NULL and does not change the array does what the callback does along the list of the
-- elements' addresses, up to the first status that is not 0, and fails no assertion.
pub array_each-run_each :
    {D : Type 0} (array_of : D → Array) (func : ℕ → D → ℕ × D) (d : D)
    → Keeps array_of func
    → 0 < (array_of d).nelem
    → (array_of d).size * (array_of d).nelem < 2 ^ 64
    → array_each array_of (some func) d
      ≡ (let a = array_of d in some (run_each func (elements a.elem a.size a.nelem) d))
unfolding array_each array_n
array_each-run_each array_of func d keeps positive fits =
    let a = array_of d in
    let start : a.elem + a.size * 0 ≡ a.elem = omega arith in
    rw (eq_of_ne a.nelem 0 (λ z. omega arith)) (
      each_loop-run_each a fits array_of func a.nelem 0 d keeps refl (omega arith)
      ∙ ap (λ t. some (run_each func (elements t a.size a.nelem) d)) start)
