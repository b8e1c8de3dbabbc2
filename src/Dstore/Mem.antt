-- ===== src/Dstore/Mem.antt =====
-- dstore/mem.go: the in-memory store. A method takes the store and gives its result and the store
-- that it leaves; the lock of each method is held for the whole of it, so a method is one step.
pub mod Listing
pub mod Events
pub mod Invariant
pub mod View
pub mod Listed
use keys.Common.{
  ℕ, zero, suc, ◌+◌, ◌%◌, List, [], ◌∷◌, ◌++◌, Option, none, some, Bool, true, false, not, ◌&&◌,
  Str, str_eq, has_prefix, codes, length, take, drop, ltb, ◌==◌, if◌then◌else◌, Result, ok, err,
  ◌>>=◌,
}
use keys.Common.Int.{ℤ, pos, negsuc}
use keys.Common.Assoc
use keys.Common.Assoc.{Assoc}
use keys.Dstore.Path.{path_of, path_components, path_first}
use keys.Dstore.StringSet
use keys.Dstore.StringSet.{StringSet}
use keys.Tsutil.{Time}
use keys.Dstore.Document.{Document, Value, set_values, new_document}
use keys.Dstore.Options.{Options, ListOption, new_options, SetOption, new_set_options}
use keys.Dstore.Iterator.{Iterator, new_iterator}

-- A clock is its readings in order and the number of those taken.
pub record Clock : Type 0 where
  pub reading : ℕ → Time
  pub taken : ℕ

pub record Mem : Type 0 where
  pub paths : StringSet
  pub values : Assoc Document
  pub clock : Clock

-- One constructor for each error that a method returns; `slice_out_of_range` is the panic of a
-- slice expression.
pub data Error : Type 0 where
  invalid_path : Str → Error
  path_exists : Str → Error
  not_found : Str → Error
  only_root_collections : Error
  list_root : Error
  missing_document : Error
  slice_out_of_range : Error
  invalid_event : Error

unfoldable pub new_mem : Clock → Mem
new_mem clock = record { paths = StringSet.new_string_set []; values = []; clock = clock }

unfoldable pub set_clock : Mem → Clock → Mem
set_clock m clock = record m { clock = clock }

-- `m.Now()`.
unfoldable pub now : Mem → Time × Mem
now m = (
  m.clock.reading m.clock.taken,
  record m { clock = record m.clock { taken = m.clock.taken + 1 } },
)

-- `m.document(path)`; `none` is nil.
unfoldable pub document : Mem → Str → Option Document
document m path = Assoc.lookup path m.values

-- `len(PathComponents(path))%2 != 0`.
unfoldable pub is_odd : Str → Bool
is_odd path = not (length (path_components path) % 2 == 0)

-- The checks on a normalised path that `set` and `Update` begin with.
unfoldable pub check_path : Str → Result Error (Unit {0})
check_path path =
    if str_eq path (codes "/")
    then err (invalid_path path)
    else if is_odd path
    then err (invalid_path path)
    else ok tt

-- `for k, v := range values`, where a nil map has no entry.
abbrev pub entries : Option (Assoc Value) → Assoc Value
entries none = []
entries (some vs) = vs

-- The document that `set` stores over the one that it found, where the map that it is given is that
-- of no other document; Dstore/Shared has the maps that documents share.
unfoldable pub written : Option Document → Str → Option (Assoc Value) → Bool → Time → Document
written none path values merge_all at = record (new_document path at) {
  values = values;
  created_at = at;
  updated_at = at;
}
written (some doc) path values merge_all at =
    if merge_all
    then record (set_values doc (entries values)) { updated_at = at }
    else record doc { values = values; updated_at = at }

-- `m.values[path] = doc; m.paths.Add(path)`.
unfoldable pub store : Mem → Str → Document → Mem
store m path doc = record m {
  values = Assoc.insert path doc m.values;
  paths = StringSet.add m.paths path;
}

-- `m.set` past the checks on the path.
unfoldable pub set_checked :
    Mem → Str → Option (Assoc Value) → Bool → Bool → Result Error Unit × Mem
set_checked m path values create merge_all = elim (document m path) [
  | none ↦ (ok tt, store (now m).1 path (written none path values merge_all (now m).0))
  | some doc ↦
      if create
      then (err (path_exists path), m)
      else (ok tt, store (now m).1 path (written (some doc) path values merge_all (now m).0))
]

-- `m.set(path, values, create, mergeAll)`.
unfoldable pub set : Mem → Str → Option (Assoc Value) → Bool → Bool → Result Error Unit × Mem
set m p values create merge_all = elim (check_path (path_of (p ∷ []))) [
  | err e ↦ (err e, m)
  | ok _ ↦ set_checked m (path_of (p ∷ [])) values create merge_all
]

-- `m.Create(path, values)`.
unfoldable pub create_document : Mem → Str → Option (Assoc Value) → Result Error Unit × Mem
create_document m p values = set m p values true false

-- `m.Set(path, values, opt...)`.
unfoldable pub set_document :
    Mem → Str → Option (Assoc Value) → List SetOption → Result Error Unit × Mem
set_document m p values opts = set m p values false (new_set_options opts).merge_all

-- `m.Update(path, values)`: the document is changed in place.
unfoldable pub update : Mem → Str → Option (Assoc Value) → Result Error Unit × Mem
update m p values =
    let path = path_of (p ∷ []) in
    elim (check_path path) [
      | err e ↦ (err e, m)
      | ok _ ↦ elim (document m path) [
        | none ↦ (err (not_found path), m)
        | some doc ↦ (
          ok tt,
          record m { values = Assoc.insert path (set_values doc (entries values)) m.values },
        )
      ]
    ]

-- `m.Get(path)`; a missing document is `none`.
unfoldable pub get : Mem → Str → Result Error (Option Document)
get m p =
    let path = path_of (p ∷ []) in
    if is_odd path then err (invalid_path path) else ok (document m path)

-- `m.Delete(path)`.
unfoldable pub delete : Mem → Str → Bool × Mem
delete m p =
    let path = path_of (p ∷ []) in
    elim (document m path) [
      | none ↦ (false, m)
      | some _ ↦ (
        true,
        record m { values = Assoc.erase path m.values; paths = StringSet.remove m.paths path },
      )
    ]

-- `m.DeleteAll(paths)`; no deletion fails.
unfoldable pub delete_all : Mem → List Str → Mem
delete_all m [] = m
delete_all m (p ∷ ps) = delete_all (delete m p).1 ps

-- `m.GetAll(paths)`.
unfoldable pub get_all : Mem → List Str → List Document
get_all m [] = []
get_all m (p ∷ ps) =
    let rest = get_all m ps in
    elim (document m (path_of (p ∷ []))) [ none ↦ rest | some doc ↦ doc ∷ rest ]

-- `m.Exists(path)`.
unfoldable pub exists : Mem → Str → Bool
exists m p = elim (document m (path_of (p ∷ []))) [ none ↦ false | some _ ↦ true ]
