-- ===== src/Conf/Parse/Scalars.antt =====
-- The states between two calls of `conf_parse_core`'s loop, and a scalar pushed or popped there.
use timeseries_database.Base.{
  ℕ, ◌+◌, ◌^◌, ltb, u32, take, ap, ◌∙◌, ◌≡◌, ◌≢◌, refl, Bool, true, false, some, List, [], ◌∷◌,
  ◌==◌, length, arith,
}
use timeseries_database.Base.Pieces.{take-all}
use timeseries_database.Strings.{CString, text, done, string_init, string_copy, string_deinit}
use timeseries_database.Conf.Pool.{ConfPool}
use timeseries_database.Conf.State.{World, Conf, conf_push_scalar, pop_item}
use timeseries_database.Conf.Tree.{IsScalar}

-- A state between two calls: the arguments, the pools, and where the parser is in the tree.
abbrev pub state :
    Conf
    → (args : List CString) (pools : List ConfPool) (room depth : ℕ) (seq : Bool) (requests : ℕ)
    → Conf
state base args pools room depth seq requests = record base {
  arg = record { items = args; nalloc = 3 };
  pool = record { items = pools; nalloc = room };
  depth = depth;
  seq = seq;
  valid_event = false;
  requests = requests;
}

abbrev pub is_empty : List ℕ → Bool
is_empty s = length s == 0

pub empty-false : (s : List ℕ) → s ≢ [] → is_empty s ≡ false
empty-false [] ne = absurd (ne refl)
empty-false (c ∷ s) ne = ground arith

pub copy-scalar : (s : List ℕ) → IsScalar s → string_copy true string_init s ≡ some (done, text s)
unfolding string_copy string_init
copy-scalar s (ne, no_nul, _) = rw (empty-false s ne, no_nul) refl

-- The arguments after a leaf.
abbrev pub left : (key name : List ℕ) → Bool → List CString
left key name true = text key ∷ text name ∷ []
left key name false = text name ∷ []

pub pop-text :
    (s : List ℕ) (items : List CString) → IsScalar s → pop_item (text s ∷ items) ≡ some items
unfolding pop_item string_deinit
pop-text s items ok = rw (pop_item, string_deinit, empty-false s ok.0) refl

module _ (w : World) (plenty : (n : ℕ) → w.granted n ≡ true) (base : Conf) where
  pub push-scalar :
      (s : List ℕ) (args : List CString) (pools : List ConfPool) (room depth requests : ℕ)
      (seq : Bool)
      → IsScalar s
      → (length args == 3) ≡ false
      → ltb (length args + 1) (2 ^ 32) ≡ true
      → conf_push_scalar w s
          (record (state base args pools room depth seq requests) { valid_event = true })
        ≡ some (
          done,
          record (state base (text s ∷ args) pools room depth seq (requests + 1 + 1)) {
            valid_event = true;
          },
        )
  unfolding conf_push_scalar
  push-scalar s args pools room depth requests seq ok space small =
      let fits : u32 (length s) ≡ length s = omega (arith, ok.2) in
      let copied : string_copy true string_init (take (u32 (length s)) s) ≡ some (done, text s) =
        ap (λ n. string_copy true string_init (take n s)) fits
        ∙ ap (string_copy true string_init) (take-all s)
        ∙ copy-scalar s ok in
      rw (fits, empty-false s ok.0, small, space, plenty (requests + 1), copied) refl
