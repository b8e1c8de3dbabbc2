-- ===== src/Dstore/Document.antt =====
-- dstore/document.go: a document, its values under names, and the typed reads of those. Here the
-- values are a value. `SetAll` and `With` keep the map of the caller without cloning it; Dstore/Shared
-- has them, with maps as references.
pub mod Laws
use keys.Common.{ℕ, List, [], ◌∷◌, Option, none, some, Str, codes, ◌≡◌}
use keys.Common.Int.{ℤ}
use keys.Common.Assoc
use keys.Common.Assoc.{Assoc}
use keys.Tsutil.{Time}
use keys.Dstore.Path.{path_of}

-- The dynamic types that the reads tell apart. `other` is a value of any other type.
pub data Value : Type 0 where
  bytes : Str → Value
  string : Str → Value
  int : ℤ → Value
  int32 : ℤ → Value
  int64 : ℤ → Value
  other : ℕ → Value

-- `none` is the nil map.
pub record Document : Type 0 where
  pub doc_path : Str
  pub values : Option (Assoc Value)
  pub created_at : Time
  pub updated_at : Time

unfoldable pub set_value : Document → Str → Value → Document
set_value d name i = record d {
  values = some (Assoc.insert name i (elim d.values [ none ↦ [] | some m ↦ m ]));
}

unfoldable pub get_value : Document → Str → Option Value
get_value d name = elim d.values [ none ↦ none | some m ↦ Assoc.lookup name m ]

-- `for k, v := range values { doc.Set(k, v) }`.
unfoldable pub set_values : Document → Assoc Value → Document
set_values d [] = d
set_values d ((k, v) ∷ vs) = set_values (set_value d k v) vs

-- `doc.Bytes(name)`, where `decode` is base64; `none` is nil.
unfoldable pub get_bytes : (Str → Option Str) → Document → Str → Option Str
unfolding get_value
get_bytes decode d name = elim (get_value d name) [
  | none ↦ none
  | some (bytes b) ↦ some b
  | some (string s) ↦ decode s
  | some (int n) ↦ none
  | some (int32 n) ↦ none
  | some (int64 n) ↦ none
  | some (other n) ↦ none
]

-- `doc.Int64(name)`, and `doc.Int(name)` where `int` has 64 bits.
unfoldable pub get_int : Document → Str → Option ℤ
unfolding get_value
get_int d name = elim (get_value d name) [
  | none ↦ none
  | some (bytes b) ↦ none
  | some (string s) ↦ none
  | some (int n) ↦ some n
  | some (int32 n) ↦ some n
  | some (int64 n) ↦ some n
  | some (other n) ↦ none
]

unfoldable pub get_string : Document → Str → Option Str
unfolding get_value
get_string d name = elim (get_value d name) [
  | none ↦ none
  | some (bytes b) ↦ none
  | some (string s) ↦ some s
  | some (int n) ↦ none
  | some (int32 n) ↦ none
  | some (int64 n) ↦ none
  | some (other n) ↦ none
]

-- `NewDocument(path)` at the system's time `now`.
unfoldable pub new_document : Str → Time → Document
new_document p now = record {
  doc_path = path_of (p ∷ []);
  values = some [];
  created_at = now;
  updated_at = now;
}

-- `dstore.Data(b)`.
unfoldable pub of_data : Str → Assoc Value
of_data b = (codes "data", bytes b) ∷ []

-- `doc.Data()`.
unfoldable pub data_of : (Str → Option Str) → Document → Option Str
unfolding get_bytes
data_of decode d = get_bytes decode d (codes "data")

-- `dstore.Paths(docs)`.
unfoldable pub paths_of : List Document → List Str
paths_of [] = []
paths_of (d ∷ ds) = d.doc_path ∷ paths_of ds
