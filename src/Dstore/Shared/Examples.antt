-- ===== src/Dstore/Shared/Examples.antt =====
-- dstore/mem.go: a store with one document, and two documents with one map.
use keys.Common.{
  ◌==◌, [], ◌∷◌, some, true, false, Str, str_eq, codes, if◌then◌else◌, ok, ◌≡◌, ◌≢◌, refl, arith,
  ◌∙◌, sym, ap, str_eq_iff, Bool-cases, inl, inr, ◌+◌,
}
use keys.Common.Int.{pos}
use keys.Common.Assoc
use keys.Common.Assoc.{Assoc, lookup-insert}
use keys.Common.Split.{split, join}
use keys.Tsutil.{unix_nano}
use keys.Dstore.Path.{non_empty, expand, to_string, path_of, path_components}
use keys.Dstore.StringSet
use keys.Dstore.Document.{Document, string, get_value}
use keys.Dstore.Mem.{check_path, is_odd}
use keys.Dstore.Shared.{
  Maps, SharedDocument, Shared, read, entries_at, put, set_entry, set_entries, now_of, merge_into,
  set_all, new_with, keep, set_doc, tick, set_shared, update_shared, shown,
}
use keys.Dstore.Shared.Merging.{IsMap}
use keys.Dstore.Shared.Unshared.{IsUnshared, IsFresh, seen, view_at, value_in}
use keys.Dstore.Shared.Written.{IsLeft, values_after, created_or}
use keys.Dstore.Shared.Views.{view_at-set_shared, view_at-update_shared}

-- The maps of two callers.
abbrev two_maps : Maps
two_maps = record {
  cell = λ a.
      if a == 0
      then (codes "name", string (codes "alice")) ∷ (codes "age", string (codes "30")) ∷ []
      else (codes "name", string (codes "bob")) ∷ [];
  next = 2;
}

-- A document with the first of the maps.
abbrev alice : SharedDocument
alice = record {
  at_path = codes "/user/alice";
  map_at = some 0;
  created = unix_nano (pos 5);
  updated = unix_nano (pos 6);
}

abbrev one : Shared
one = record {
  path_set = StringSet.new_string_set (codes "/user/alice" ∷ []);
  docs = (codes "/user/alice", alice) ∷ [];
  maps = two_maps;
  time = record { reading = λ n. unix_nano (pos (7 + n)); taken = 0 };
}

one-found :
    (q : Str) (d : SharedDocument)
    → Assoc.lookup q one.docs ≡ some d
    → (alice ≡ d) × (codes "/user/alice" ≡ q)
unfolding Assoc.lookup
one-found q d found = elim (Bool-cases (str_eq (codes "/user/alice") q)) [
  | inl e ↦ (ground (arith, found, e), (str_eq_iff (codes "/user/alice") q).0 e)
  | inr e ↦ absurd (ground (arith, found, e))
]

one-IsUnshared : IsUnshared one.docs one.maps
one-IsUnshared = record {
  below = λ q d a found at. ground (arith, ap (λ x. x.map_at) (one-found q d found).0 ∙ at);
  apart = λ q r d e a fq fr dq er. sym (one-found q d fq).1 ∙ (one-found r e fr).1;
}

one-IsFresh : IsFresh one.docs one.maps (some 1)
unfolding IsFresh
one-IsFresh = λ c e. (
  ground (arith, e),
  λ q d found own. ground (arith, e, ap (λ x. x.map_at) (one-found q d found).0 ∙ own),
)

second-IsMap : IsMap (entries_at one.maps (some 1))
unfolding IsMap entries_at Assoc.lookup
second-IsMap = (refl, tt)

view_at-one : view_at one (codes "user/alice") ≡ some (shown two_maps alice)
unfolding seen path_of to_string expand non_empty split join str_eq Assoc.lookup
view_at-one = refl

alice-checked : check_path (path_of (codes "user/alice" ∷ [])) ≡ ok tt
unfolding path_of to_string expand non_empty split join str_eq check_path is_odd path_components
alice-checked = refl

view_at-set_shared_example :
    ((set_shared one (codes "user/alice") (some 1) false true).0 ≡ ok tt)
    × ((d : Document) × (view_at
            (set_shared one (codes "user/alice") (some 1) false true).1
            (codes "user/alice")
          ≡ some d)
        × IsLeft d
            (values_after true
              ((codes "name", string (codes "bob")) ∷ [])
              (view_at one (codes "user/alice")))
            (created_or (view_at one (codes "user/alice")) (unix_nano (pos 7)))
            (unix_nano (pos 7)))
    × ((q : Str)
        → path_of (codes "user/alice" ∷ []) ≢ path_of (q ∷ [])
        → view_at (set_shared one (codes "user/alice") (some 1) false true).1 q ≡ view_at one q)
    × IsUnshared
        (set_shared one (codes "user/alice") (some 1) false true).1.docs
        (set_shared one (codes "user/alice") (some 1) false true).1.maps
unfolding entries_at
view_at-set_shared_example =
    view_at-set_shared one (codes "user/alice") (some 1) true alice-checked one-IsUnshared
      one-IsFresh second-IsMap

view_at-update_shared_example :
    ((update_shared one (codes "user/alice") (some 1)).0 ≡ ok tt)
    × ((d : Document) × (view_at
            (update_shared one (codes "user/alice") (some 1)).1
            (codes "user/alice")
          ≡ some d)
        × IsLeft d
            (values_after true
              ((codes "name", string (codes "bob")) ∷ [])
              (some (shown two_maps alice)))
            (unix_nano (pos 5))
            (unix_nano (pos 6)))
    × ((q : Str)
        → path_of (codes "user/alice" ∷ []) ≢ path_of (q ∷ [])
        → view_at (update_shared one (codes "user/alice") (some 1)).1 q ≡ view_at one q)
    × IsUnshared
        (update_shared one (codes "user/alice") (some 1)).1.docs
        (update_shared one (codes "user/alice") (some 1)).1.maps
unfolding entries_at shown
view_at-update_shared_example =
    view_at-update_shared one (codes "user/alice") (some 1) (shown two_maps alice) alice-checked
      one-IsUnshared second-IsMap view_at-one

-- Two documents that were set to one map: an update of the one changes the other.
abbrev pair : Shared
pair =
    (set_shared (set_shared one (codes "user/bob") (some 1) false false).1 (codes "user/carol")
      (some 1) false false).1

update-shared_map :
    value_in
      (view_at (update_shared pair (codes "user/bob") (some 0)).1 (codes "user/carol"))
      (codes "age")
    ≡ some (string (codes "30"))
unfolding seen path_of to_string expand non_empty split join str_eq Assoc.lookup Assoc.insert
    check_path is_odd path_components set_shared set_doc set_all new_with keep tick now_of
    merge_into set_entries set_entry put update_shared shown read entries_at value_in get_value
    StringSet.add StringSet.new_string_set
update-shared_map = refl
