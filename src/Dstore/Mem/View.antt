-- ===== src/Dstore/Mem/View.antt =====
-- dstore/mem.go: what the store promises of a document at a path. The store is a map from paths in
-- normal form, and each method reads or writes one entry of it.
use keys.Common.{
  List, [], ◌∷◌, Option, none, some, Bool, false, Str, str_eq, str_eq_iff, if◌then◌else◌, ok, err,
  ◌≡◌, refl, arith, Option-cases, inl, inr, arith,
}
use keys.Common.Assoc.{Assoc, lookup-insert, lookup-erase}
use keys.Dstore.Path.{path_of}
use keys.Dstore.Document.{Document, Value}
use keys.Dstore.Options.{SetOption, new_set_options}
use keys.Dstore.Mem.{
  Mem, Error, path_exists, not_found, document, check_path, written, store, now, set_checked, set,
  create_document, set_document, update, delete, exists,
}

-- The document at a path, whatever way the path is written.
abbrev pub view : Mem → Str → Option Document
view m p = document m (path_of (p ∷ []))

-- The paths that a document can have.
abbrev pub IsDocumentPath : Str → Type 0
IsDocumentPath p = check_path (path_of (p ∷ [])) ≡ ok tt

-- The entry that `store` writes, after the clock was read.
document-store :
    (m : Mem) (path : Str) (doc : Document) (q : Str)
    → document (store (now m).1 path doc) q ≡ (if str_eq path q then some doc else document m q)
unfolding document store now
document-store m path doc q = lookup-insert path q doc m.values

set_checked-overwrite :
    (m : Mem) (path : Str) (values : Option (Assoc Value)) (merge_all : Bool)
    → set_checked m path values false merge_all
      ≡ (ok tt, store (now m).1 path (written (document m path) path values merge_all (now m).0))
unfolding set_checked
set_checked-overwrite m path values merge_all = elim (Option-cases (document m path)) [
  | inl e ↦ rw (set_checked, e)
  | inr (doc, e) ↦ rw (set_checked, e)
]

set_document_lem :
    (m : Mem) (p : Str) (values : Option (Assoc Value)) (opts : List SetOption)
    → IsDocumentPath p
    → set_document m p values opts ≡ (
      ok tt,
      store
          (now m).1
          (path_of (p ∷ []))
          (written (view m p) (path_of (p ∷ [])) values (new_set_options opts).merge_all (now m).0),
    )
unfolding set_document set
set_document_lem m p values opts h =
    rw (set_document, set, h)
      (set_checked-overwrite m (path_of (p ∷ [])) values (new_set_options opts).merge_all)

-- `Set` on a document path succeeds. Afterwards there stands, at all ways to write that path, what
-- was written over what stood there, and at all other paths what stood there before.
pub view-set_document :
    (m : Mem) (p q : Str) (values : Option (Assoc Value)) (opts : List SetOption)
    → IsDocumentPath p
    → ((set_document m p values opts).0 ≡ ok tt)
      × (view (set_document m p values opts).1 q ≡ (
          if str_eq (path_of (p ∷ [])) (path_of (q ∷ []))
          then some (
              written
                (view m p)
                (path_of (p ∷ []))
                values
                (new_set_options opts).merge_all
                (now m).0)
          else view m q))
view-set_document m p q values opts h =
    rw (set_document_lem m p values opts h)
      (refl, document-store m (path_of (p ∷ [])) _ (path_of (q ∷ [])))

-- `Create` fails where there is a document, and changes nothing then.
pub create_document-exists :
    (m : Mem) (p : Str) (values : Option (Assoc Value)) (doc : Document)
    → IsDocumentPath p
    → view m p ≡ some doc
    → create_document m p values ≡ (err (path_exists (path_of (p ∷ []))), m)
unfolding create_document set set_checked
create_document-exists m p values doc h e = rw (create_document, set, h, set_checked, e)

-- `Create` on a document path without a document does what `Set` without options does.
pub create_document-new :
    (m : Mem) (p : Str) (values : Option (Assoc Value))
    → IsDocumentPath p
    → view m p ≡ none
    → create_document m p values ≡ set_document m p values []
unfolding create_document set_document set set_checked new_set_options written
create_document-new m p values h e =
    rw (create_document, set_document, set, h, set_checked, e, written)

-- A path that is no document path is refused by `Create`, `Set` and `Update` with the same error,
-- and nothing changes.
pub write-invalid :
    (m : Mem) (p : Str) (values : Option (Assoc Value)) (opts : List SetOption) (e : Error)
    → check_path (path_of (p ∷ [])) ≡ err e
    → (create_document m p values ≡ (err e, m))
      × (set_document m p values opts ≡ (err e, m))
      × (update m p values ≡ (err e, m))
unfolding create_document set_document set update
write-invalid m p values opts e h =
    (rw (create_document, set, h), rw (set_document, set, h), rw (update, h))

pub update-not_found :
    (m : Mem) (p : Str) (values : Option (Assoc Value))
    → IsDocumentPath p
    → view m p ≡ none
    → update m p values ≡ (err (not_found (path_of (p ∷ []))), m)
unfolding update
update-not_found m p values h e = rw (update, h, e)

-- `Delete` reports what `Exists` reports, and leaves no document at that path and those of before
-- at all others.
pub view-delete :
    (m : Mem) (p q : Str)
    → ((delete m p).0 ≡ exists m p)
      × (view (delete m p).1 q
          ≡ (if str_eq (path_of (p ∷ [])) (path_of (q ∷ [])) then none else view m q))
unfolding delete exists
view-delete m p q = elim (Option-cases (view m p)) [
  | inl e ↦ (
    rw (delete, exists, e),
    rw (delete, e) (ground (arith, str_eq_iff (path_of (p ∷ [])) (path_of (q ∷ [])))),
  )
  | inr (doc, e) ↦ (
    rw (delete, exists, e),
    rw (delete, e) (unfold document in lookup-erase _ (path_of (q ∷ [])) m.values),
  )
]
