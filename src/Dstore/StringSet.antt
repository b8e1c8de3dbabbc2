-- ===== src/Dstore/StringSet.antt =====
-- dstore/set.go: a set of strings, kept as a map and as a list in the order of insertion.
pub mod Laws
use keys.Common.{
  ℕ, List, [], ◌∷◌, ◌++◌, Option, none, some, Bool, true, false, Str, length, if◌then◌else◌,
}
use keys.Common.Assoc
use keys.Common.Assoc.{Assoc}
use keys.Common.Sort

pub record StringSet : Type 0 where
  pub strs_map : Assoc Bool
  pub strs : List Str

-- The loop of `newStringSet`.
unfoldable pub fill : List Str → StringSet → StringSet
fill [] s = s
fill (v ∷ vs) s =
    fill vs (record { strs_map = Assoc.insert v true s.strs_map; strs = s.strs ++ v ∷ [] })

-- `newStringSet(capacity, s...)`; the capacity is a hint to the allocator.
unfoldable pub new_string_set : List Str → StringSet
unfolding fill
new_string_set vs = fill vs (record { strs_map = []; strs = [] })

-- A missing key reads as `false`.
unfoldable pub contains : StringSet → Str → Bool
contains s str = elim (Assoc.lookup str s.strs_map) [ none ↦ false | some b ↦ b ]

unfoldable pub add : StringSet → Str → StringSet
unfolding contains
add s str =
    if contains s str
    then s
    else record { strs_map = Assoc.insert str true s.strs_map; strs = s.strs ++ str ∷ [] }

unfoldable pub add_all : StringSet → List Str → StringSet
add_all s [] = s
add_all s (str ∷ strs) = add_all (add s str) strs

unfoldable pub remove : StringSet → Str → StringSet
remove s str = record { strs_map = Assoc.erase str s.strs_map; strs = Sort.without str s.strs }

unfoldable pub size : StringSet → ℕ
size s = length s.strs

unfoldable pub clear : StringSet → StringSet
clear s = record { strs_map = []; strs = [] }

unfoldable pub strings : StringSet → List Str
strings s = s.strs

unfoldable pub sorted : StringSet → List Str
unfolding strings
sorted s = Sort.sort (strings s)
