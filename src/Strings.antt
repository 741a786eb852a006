-- ===== src/Strings.antt =====
-- cstring.c: strings with a length. A failed `assert`, and a write outside an allocation, are `none`.
pub mod Compare
mod Tests
use timeseries_database.Base.{
  ℕ, suc, ◌+◌, Bool, true, false, ◌&&◌, ◌||◌, not, Option, none, some, List, [], ◌∷◌, ◌==◌, ltb,
  length, if◌then◌else◌,
}
use timeseries_database.Base.Int.{ℤ, pos, negsuc}

-- What the functions of the repository return: 0, -1 and -3.
pub data Status : Type 0 where
  done error no_memory : Status

-- `struct string`; `bytes` is `none` for `NULL`, and leaves out the 0 that ends the string.
pub record CString : Type 0 where
  pub len : ℕ
  pub bytes : Option (List ℕ)

-- A string of given bytes.
abbrev pub text : List ℕ → CString
text bytes = record { len = length bytes; bytes = some bytes }

abbrev pub is_null : Option (List ℕ) → Bool
is_null none = true
is_null (some _) = false

-- Both fields are unset, or both are set.
abbrev pub consistent : CString → Bool
consistent str =
    ((str.len == 0) && is_null str.bytes) || (not (str.len == 0) && not (is_null str.bytes))

unfoldable pub string_init : CString
string_init = record { len = 0; bytes = none }

unfoldable pub string_deinit : CString → Option CString
string_deinit str =
    if consistent str then some (if is_null str.bytes then str else string_init) else none

unfoldable pub string_empty : CString → Option Bool
string_empty str = if consistent str then some (str.len == 0) else none

-- Whether a 0 stands among the bytes.
unfoldable pub has_nul : List ℕ → Bool
has_nul [] = false
has_nul (c ∷ cs) = (c == 0) || has_nul cs

-- `granted` is whether `strndup` finds memory. It copies up to the first 0: if one stands among the
-- bytes, the write of `dst->data[dst->len]` is outside of what it allocates.
abbrev pub copy_bytes : Bool → List ℕ → CString → Option (Status × CString)
copy_bytes granted src dst =
    if granted
    then (if has_nul src then none else some (done, record { len = length src; bytes = some src }))
    else some (error, record dst { bytes = none })

-- `src` is the first `srclen` bytes; they are followed by a 0.
unfoldable pub string_copy : (granted : Bool) → CString → List ℕ → Option (Status × CString)
string_copy granted dst src =
    if (dst.len == 0) && is_null dst.bytes && not (length src == 0)
    then copy_bytes granted src dst
    else none

unfoldable pub string_duplicate : (granted : Bool) → CString → CString → Option (Status × CString)
string_duplicate granted dst src =
    if (dst.len == 0) && is_null dst.bytes && not (src.len == 0)
    then elim src.bytes [ none ↦ none | some bytes ↦ copy_bytes granted bytes dst ]
    else none

-- `strncmp` at strings of one length: the sign of the first difference, up to a common 0.
unfoldable pub strncmp : List ℕ → List ℕ → ℤ
strncmp (c ∷ s) (d ∷ t) =
    let rest = strncmp s t in
    if c == d then (if c == 0 then pos 0 else rest) else (if ltb c d then negsuc 0 else pos 1)
strncmp _ _ = pos 0

abbrev pub content : CString → List ℕ
content s = elim s.bytes [ none ↦ [] | some bytes ↦ bytes ]

-- On two strings that are not set the code calls `strncmp` on NULL with the length 0, which is read
-- as a comparison of no bytes.
unfoldable pub string_compare : CString → CString → ℤ
string_compare s1 s2 =
    if s1.len == s2.len
    then strncmp (content s1) (content s2)
    else (if ltb s2.len s1.len then pos 1 else negsuc 0)
