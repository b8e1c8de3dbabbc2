-- ===== src/Address.antt =====
-- address.go: an address, a canonical list of identifiers.
pub mod Canonical
pub mod Text
mod Examples
use keys.Common.{
  List, [], ◌∷◌, ◌++◌, Option, none, some, Bool, true, false, Str, str_eq, if◌then◌else◌, Result,
  ok, err, ◌>>=◌, map_err,
}
use keys.Common.Assoc
use keys.Common.Assoc.{Assoc}
use keys.Common.Sort.{sort}
use keys.Common.Split.{split, join}
use keys.Id
use keys.Id.{parse_id}

pub record Address : Type 0 where
  pub ids : List Str
  pub idmap : Assoc Bool

pub data Error : Type 0 where
  no_ids no_addresses duplicate_address : Error
  id_error : Id.Error → Error

-- The loop of `NewAddress`: each identifier is entered into the map, which must not have it.
unfoldable pub fill_idmap : List Str → Assoc Bool → Result Error (Assoc Bool)
fill_idmap [] idmap = ok idmap
fill_idmap (r ∷ rs) idmap = elim (Assoc.lookup r idmap) [
  | some true ↦ err duplicate_address
  | some false ↦ fill_idmap rs (Assoc.insert r true idmap)
  | none ↦ fill_idmap rs (Assoc.insert r true idmap)
]

-- `NewAddress(ids...)`.
unfoldable pub new_address : List Str → Result Error Address
new_address [] = err no_ids
new_address (i ∷ is) = do
  idmap ← fill_idmap (sort (i ∷ is)) []
  ok (record { ids = sort (i ∷ is); idmap = idmap })

-- The inner loop of `ParseAddress`, which appends to the identifiers so far.
unfoldable pub parse_recs : List Str → List Str → Result Error (List Str)
parse_recs [] ids = ok ids
parse_recs (r ∷ rs) ids = elim (parse_id r) [
  | err e ↦ err (id_error e)
  | ok id ↦ parse_recs rs (ids ++ id ∷ [])
]

-- The outer loop.
unfoldable pub parse_saddrs : List Str → List Str → Result Error (List Str)
parse_saddrs [] ids = ok ids
parse_saddrs (s ∷ ss) ids = elim (parse_recs (split s b':') ids) [
  | err e ↦ err e
  | ok more ↦ parse_saddrs ss more
]

-- `ParseAddress(saddrs...)`.
unfoldable pub parse_address : List Str → Result Error Address
parse_address [] = err no_addresses
parse_address (s ∷ ss) = do ids ← parse_saddrs (s ∷ ss) []; new_address ids

-- The loop of `Contains`.
unfoldable pub contains_in : Str → List Str → Bool
contains_in id [] = false
contains_in id (r ∷ rs) = if str_eq r id then true else contains_in id rs

-- `a.Contains(id)`.
unfoldable pub contains : Address → Str → Bool
contains a id = contains_in id a.ids

-- `a.Strings()`, an identifier being its text.
unfoldable pub strings : Address → List Str
strings a = a.ids

-- `a.String()`.
unfoldable pub string : Address → Str
string a = join (strings a) b':'
