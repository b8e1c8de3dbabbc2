-- ===== src/Dstore/Shared/Written.antt =====
-- dstore/mem.go: what the writes of `set` leave at each path, where maps are references.
use keys.Common.{
  ℕ, [], ◌∷◌, Option, none, some, Bool, true, false, Str, str_eq_self, str_eq_ne, if◌then◌else◌,
  ◌≡◌, ◌≢◌, inl, inr, refl, sym, ap, arith, ◌∙◌, Option-cases,
}
use keys.Common.Assoc
use keys.Common.Assoc.{Assoc, lookup-insert}
use keys.Tsutil.{Time}
use keys.Dstore.Path.{path_of}
use keys.Dstore.Document.{Document, Value, get_value}
use keys.Dstore.Shared.{
  Maps, SharedDocument, Shared, read, entries_at, set_entries, merge_into, set_all, new_with, keep,
  set_doc, shown,
}
use keys.Dstore.Shared.Merging.{IsMap, or_else, get_value-set_values, read-set_entries}
use keys.Dstore.Shared.Unshared.{
  IsUnshared, IsFresh, seen, value_in, insert-IsUnshared, merged-frame, merged-IsUnshared,
}

-- What is left at a path of what stood there: the values by their names, and the times.
pub record IsLeft (d : Document) (value : Str → Option Value) (created updated : Time)
    : Type 0 where
  pub values_are : (name : Str) → get_value d name ≡ value name
  pub created_is : d.created_at ≡ created
  pub updated_is : d.updated_at ≡ updated

-- The time of creation of a document, or else another.
unfoldable pub created_or : Option Document → Time → Time
created_or none at = at
created_or (some d) at = d.created_at

pub set_doc-IsUnshared :
    (s : Shared) (path : Str) (values : Option ℕ) (o : Option SharedDocument) (merge_all : Bool)
    (at : Time)
    → Assoc.lookup path s.docs ≡ o
    → IsUnshared s.docs s.maps
    → IsFresh s.docs s.maps values
    → IsUnshared
        (set_doc s path values o merge_all at).docs
        (set_doc s path values o merge_all at).maps
unfolding set_doc keep merge_into set_all new_with IsFresh
set_doc-IsUnshared s path values none merge_all at found u fresh =
    insert-IsUnshared s.docs s.maps s.maps path _ u (omega arith)
      (λ c e. ((fresh c e).0, λ q d other own. absurd ((fresh c e).1 q d other own)))
set_doc-IsUnshared s path values (some doc) false at found u fresh =
    insert-IsUnshared s.docs s.maps s.maps path _ u (omega arith)
      (λ c e. ((fresh c e).0, λ q d other own. absurd ((fresh c e).1 q d other own)))
set_doc-IsUnshared s path values (some doc) true at found u fresh =
    merged-IsUnshared s.docs s.maps u path doc found (entries_at s.maps values) _ refl

pub set_doc-frame :
    (s : Shared) (path q : Str) (values : Option ℕ) (o : Option SharedDocument) (merge_all : Bool)
    (at : Time)
    → IsUnshared s.docs s.maps
    → Assoc.lookup path s.docs ≡ o
    → path ≢ q
    → seen (set_doc s path values o merge_all at) q ≡ seen s q
unfolding seen set_doc keep merge_into
set_doc-frame s path q values none merge_all at u found apart =
    rw (seen, lookup-insert path q, str_eq_ne path q apart) refl
set_doc-frame s path q values (some doc) false at u found apart =
    rw (seen, lookup-insert path q, str_eq_ne path q apart) refl
set_doc-frame s path q values (some doc) true at u found apart =
    elim (Option-cases (Assoc.lookup q s.docs)) [
      | inl e ↦ rw (seen, lookup-insert path q, str_eq_ne path q apart, e) refl
      | inr (d, e) ↦
          rw (seen, lookup-insert path q, str_eq_ne path q apart, e)
            (ap some
              (merged-frame s.docs s.maps u path doc found (entries_at s.maps values) q d e apart))
    ]

-- A value after `Set`, by what is set and what there was.
unfoldable pub value_after : Bool → Option Value → Option Value → Option Value
value_after merge_all new old = if merge_all then or_else new old else new

value_after-none : (merge_all : Bool) (new : Option Value) → new ≡ value_after merge_all new none
unfolding value_after or_else
value_after-none false new = refl
value_after-none true none = refl
value_after-none true (some v) = refl

-- A value of a document that was merged into.
get_value-merged :
    (h : Maps) (doc : SharedDocument) (vs : Assoc Value) (at : Time) (name : Str)
    → IsMap vs
    → get_value
        (shown
          (set_entries h doc.map_at vs).1
          (record doc { map_at = (set_entries h doc.map_at vs).0; updated = at }))
        name
      ≡ or_else (Assoc.lookup name vs) (get_value (shown h doc) name)
unfolding get_value shown
get_value-merged h doc vs at name map =
    ap (λ d. get_value d name)
      (sym (read-set_entries (shown h (record doc { updated = at })) h doc.map_at vs))
    ∙ get_value-set_values (shown h (record doc { updated = at })) vs name map

get_value-read :
    (h : Maps) (values : Option ℕ) (d : Document) (name : Str)
    → d.values ≡ read h values
    → get_value d name ≡ Assoc.lookup name (entries_at h values)
unfolding get_value read entries_at Assoc.lookup
get_value-read h none d name e = rw (get_value, e) refl
get_value-read h (some a) d name e = rw (get_value, e) refl

-- What a document shows, if there is one.
abbrev pub shown_of : Maps → Option SharedDocument → Option Document
shown_of h o = elim o [ none ↦ none | some d ↦ some (shown h d) ]

-- The values after `Set`, by what is set and what there was.
abbrev pub values_after : Bool → Assoc Value → Option Document → Str → Option Value
values_after merge_all vs before name =
    value_after merge_all (Assoc.lookup name vs) (value_in before name)

pub set_doc-IsLeft :
    (s : Shared) (path : Str) (values : Option ℕ) (o : Option SharedDocument) (merge_all : Bool)
    (at : Time)
    → IsMap (entries_at s.maps values)
    → (d : Document) × (seen (set_doc s path values o merge_all at) path ≡ some d)
      × IsLeft d
          (values_after merge_all (entries_at s.maps values) (shown_of s.maps o))
          (created_or (shown_of s.maps o) at)
          at
unfolding seen set_doc keep merge_into set_all new_with shown value_after value_in created_or
    or_else
set_doc-IsLeft s path values none merge_all at map = (
  record {
    doc_path = path_of (path ∷ []);
    values = read s.maps values;
    created_at = at;
    updated_at = at;
  },
  rw (seen, lookup-insert path path, str_eq_self path) refl,
  record {
    values_are = λ name. get_value-read s.maps values _ name refl ∙ value_after-none merge_all _;
    created_is = refl;
    updated_is = refl;
  },
)
set_doc-IsLeft s path values (some doc) false at map = (
  record {
    doc_path = doc.at_path;
    values = read s.maps values;
    created_at = doc.created;
    updated_at = at;
  },
  rw (seen, lookup-insert path path, str_eq_self path) refl,
  record {
    values_are = λ name. get_value-read s.maps values _ name refl;
    created_is = refl;
    updated_is = refl;
  },
)
set_doc-IsLeft s path values (some doc) true at map = (
  shown (set_entries s.maps doc.map_at (entries_at s.maps values)).1 (record doc {
    map_at = (set_entries s.maps doc.map_at (entries_at s.maps values)).0;
    updated = at;
  }),
  rw (seen, lookup-insert path path, str_eq_self path) refl,
  record {
    values_are = λ name. get_value-merged s.maps doc (entries_at s.maps values) at name map;
    created_is = refl;
    updated_is = refl;
  },
)
