-- ===== src/Dstore/Examples.antt =====
-- dstore: a store with two documents.
use keys.Common.{
  All, List, [], ◌∷◌, Option, none, some, true, false, ◌&&◌, Str, str_eq, codes, ok, err, ◌≡◌, refl,
}
use keys.Common.Int.{pos}
use keys.Common.Assoc
use keys.Common.Assoc.{Assoc}
use keys.Common.Sort.{mem, IsSorted}
use keys.Common.Split.{split, join}
use keys.Tsutil.{unix_nano}
use keys.Dstore.Path.{non_empty, expand, to_string, path_of, path_components}
use keys.Dstore.StringSet
use keys.Dstore.Document.{Document, Value, string, new_document, paths_of}
use keys.Dstore.Options.{new_options}
use keys.Dstore.Mem.{
  Mem, Clock, path_exists, new_mem, document, check_path, is_odd, store, now, written, set,
  set_checked, create_document, set_document,
}
use keys.Dstore.Mem.Invariant.{is_some, IsConsistent, new_mem-IsConsistent, set-IsConsistent}
use keys.Dstore.Mem.Listing.{list, is_listed, list_prefix}
use keys.Dstore.Mem.Listed.{IsShown, list_lem}
use keys.Dstore.Mem.View.{view, IsDocumentPath, create_document-exists}

abbrev pub clock : Clock
clock = record { reading = λ n. unix_nano (pos n); taken = 0 }

abbrev named : Str → Option (Assoc Value)
named name = some ((codes "name", string name) ∷ [])

-- What a path computes with.
run_path : {A : Type 0} → A → A
unfolding path_of to_string expand non_empty split join check_path is_odd path_components str_eq
run_path r = r

alice-IsDocumentPath : IsDocumentPath (codes "user/alice")
unfolding run_path
alice-IsDocumentPath = refl

-- The store after one write.
abbrev one : Mem
one = (set_document (new_mem clock) (codes "user/alice") (named (codes "alice")) []).1

empty-IsConsistent : IsConsistent (new_mem clock)
empty-IsConsistent = new_mem-IsConsistent clock

one-IsConsistent : IsConsistent one
unfolding set_document
one-IsConsistent = set-IsConsistent empty-IsConsistent (codes "user/alice") _ false _

-- The document of that write.
abbrev alice : Document
alice = record {
  doc_path = codes "/user/alice";
  values = named (codes "alice");
  created_at = unix_nano (pos 0);
  updated_at = unix_nano (pos 0);
}

-- What a write computes with.
unfoldable pub run_write : {A : Type 0} → A → A
unfolding run_path set_document set set_checked document store now written new_mem new_document
    Assoc.lookup Assoc.insert StringSet.add StringSet.new_string_set
run_write r = r

view-one : view one (codes "user//alice/") ≡ some alice
unfolding run_write
view-one = refl

view-one-alice : view one (codes "user/alice") ≡ some alice
unfolding run_write
view-one-alice = refl

create_on_document :
    create_document one (codes "user/alice") none ≡ (err (path_exists (codes "/user/alice")), one)
unfolding run_path
create_on_document =
    create_document-exists one (codes "user/alice") none alice alice-IsDocumentPath view-one-alice

set-IsConsistent_example : IsConsistent (set one (codes "user/bob") none true false).1
set-IsConsistent_example = set-IsConsistent one-IsConsistent (codes "user/bob") none true false

list_lem_example :
    (docs : List Document) × (list one (codes "user") [] ≡ ok docs)
    × IsSorted (paths_of docs)
    × ((k : Str)
        → mem k (paths_of docs) ≡ (is_some (document one k) && is_listed (codes "/user") [] k))
    × All (IsShown one false) docs
unfolding run_path new_options list_prefix
list_lem_example = list_lem one (codes "user") [] one-IsConsistent (λ h. cc) refl refl
