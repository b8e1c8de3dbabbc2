-- ===== src/Dstore/Path.antt =====
-- dstore/path.go: a path is a list of components, written with a slash in front of each.
pub mod Laws
use keys.Common.{
  ℕ, zero, suc, List, [], ◌∷◌, ◌++◌, Option, none, some, Str, str_eq, length, get_last?, drop, ltb,
  if◌then◌else◌, codes,
}
use keys.Common.Int.{ℤ, pos, negsuc, itoa}
use keys.Common.Split.{split, join}

-- The dynamic types that `toStrings` tells apart. `other` is any type without a case.
pub data Arg : Type 0 where
  string : Str → Arg
  strings : List Str → Arg
  int : ℤ → Arg
  int64 : ℤ → Arg
  stringer : Str → Arg
  other : Arg

-- `none` is the panic on an argument of another type.
unfoldable pub to_strings : List Arg → Option (List Str)
to_strings [] = some []
to_strings (string s ∷ is) = elim (to_strings is) [ none ↦ none | some r ↦ some (s ∷ r) ]
to_strings (strings ss ∷ is) = elim (to_strings is) [ none ↦ none | some r ↦ some (ss ++ r) ]
to_strings (int n ∷ is) = elim (to_strings is) [ none ↦ none | some r ↦ some (itoa n ∷ r) ]
to_strings (int64 n ∷ is) = elim (to_strings is) [ none ↦ none | some r ↦ some (itoa n ∷ r) ]
to_strings (stringer s ∷ is) = elim (to_strings is) [ none ↦ none | some r ↦ some (s ∷ r) ]
to_strings (other ∷ is) = none

-- The inner loop of `expand`: the components that are not empty.
unfoldable pub non_empty : List Str → List Str
non_empty [] = []
non_empty ([] ∷ ss) = non_empty ss
non_empty ((c ∷ s) ∷ ss) = (c ∷ s) ∷ non_empty ss

unfoldable pub expand : List Str → List Str
expand [] = []
expand (p ∷ ps) = non_empty (split p b'/') ++ expand ps

pub record StorePath : Type 0 where
  pub components : List Str

unfoldable pub new_path_from_strings : List Str → StorePath
new_path_from_strings paths = record { components = expand paths }

unfoldable pub new_path : List Arg → Option StorePath
unfolding new_path_from_strings
new_path paths = elim (to_strings paths) [
  | none ↦ none
  | some strs ↦ some (new_path_from_strings strs)
]

-- `p.Append(paths...)`.
unfoldable pub append : StorePath → List Arg → Option StorePath
unfolding new_path_from_strings
append p paths = elim (to_strings paths) [
  | none ↦ none
  | some strs ↦ some (new_path_from_strings (p.components ++ expand strs))
]

-- `p.String()`.
unfoldable pub to_string : StorePath → Str
to_string p = b'/' ∷ join p.components b'/'

unfoldable pub first : StorePath → Str
first p = elim p.components [ [] ↦ [] | c ∷ cs ↦ c ]

unfoldable pub last : StorePath → Str
last p = elim (get_last? p.components) [ none ↦ [] | some c ↦ c ]

-- `Path(paths...)` of strings only, which is how the package calls it.
unfoldable pub path_of : List Str → Str
unfolding new_path_from_strings to_string
path_of strs = to_string (new_path_from_strings strs)

-- `Path(paths...)`.
unfoldable pub path : List Arg → Option Str
unfolding new_path to_string
path paths = elim (new_path paths) [ none ↦ none | some p ↦ some (to_string p) ]

-- `PathComponents(path)`.
unfoldable pub path_components : Str → List Str
unfolding new_path_from_strings
path_components s = (new_path_from_strings (s ∷ [])).components

unfoldable pub path_first : Str → Str
unfolding new_path_from_strings first
path_first s = first (new_path_from_strings (s ∷ []))

unfoldable pub path_last : Str → Str
unfolding new_path_from_strings last
path_last s = last (new_path_from_strings (s ∷ []))

-- `PathFrom(path, n)`: a negative `n` is a slice out of range, the panic `none`.
unfoldable pub path_from : Str → ℤ → Option Str
unfolding path_components path_of
path_from s (pos n) =
    let pc = path_components s in if ltb n (length pc) then some (path_of (drop n pc)) else some s
path_from s (negsuc n) = none
