-- ===== src/Dstore/Shared/Views.antt =====
-- dstore/mem.go: what `Set` and `Update` leave at each path, where maps are references.
use keys.Common.{
  ℕ, [], ◌∷◌, Option, none, some, Bool, true, false, Str, ok, ◌≡◌, ◌≢◌, inl, inr, refl, sym, ap,
  arith, ◌∙◌, Option-cases,
}
use keys.Common.Assoc
use keys.Common.Assoc.{Assoc, lookup-insert}
use keys.Dstore.Path.{path_of}
use keys.Dstore.Document.{Document}
use keys.Dstore.Mem.{check_path}
use keys.Dstore.Shared.{
  SharedDocument, Shared, entries_at, now_of, merge_into, keep, set_doc, tick, set_shared,
  update_shared, shown,
}
use keys.Dstore.Shared.Merging.{IsMap}
use keys.Dstore.Shared.Unshared.{IsUnshared, IsFresh, seen, view_at, merged-IsUnshared}
use keys.Dstore.Shared.Written.{
  IsLeft, created_or, values_after, shown_of, set_doc-IsUnshared, set_doc-frame, set_doc-IsLeft,
}

-- `Set` past its checks.
pub set_shared-set_doc :
    (s : Shared) (p : Str) (values : Option ℕ) (merge_all : Bool)
    → check_path (path_of (p ∷ [])) ≡ ok tt
    → set_shared s p values false merge_all ≡ (
      ok tt,
      set_doc
          (tick s)
          (path_of (p ∷ []))
          values
          (Assoc.lookup (path_of (p ∷ [])) s.docs)
          merge_all
          (now_of s.time).0,
    )
unfolding set_shared
set_shared-set_doc s p values merge_all checked =
    elim (Option-cases (Assoc.lookup (path_of (p ∷ [])) s.docs)) [
      | inl e ↦ rw (set_shared, checked, e) refl
      | inr (d, e) ↦ rw (set_shared, checked, e) refl
    ]

-- Where maps are references, no two documents share one, and the map that is given is that of no
-- document, `Set` on a document path succeeds. Afterwards a document stands at the path. Each of
-- its values is the one given, or, with MergeAll and where none is given under the name, the one
-- that stood there; it was created when the document that stood there was, or else now, and updated
-- now, the one reading of the clock. All other paths show what they showed, and no two documents
-- share a map.
pub view_at-set_shared :
    (s : Shared) (p : Str) (values : Option ℕ) (merge_all : Bool)
    → check_path (path_of (p ∷ [])) ≡ ok tt
    → IsUnshared s.docs s.maps
    → IsFresh s.docs s.maps values
    → IsMap (entries_at s.maps values)
    → ((set_shared s p values false merge_all).0 ≡ ok tt)
      × ((d : Document) × (view_at (set_shared s p values false merge_all).1 p ≡ some d)
          × IsLeft d
              (values_after merge_all (entries_at s.maps values) (view_at s p))
              (created_or (view_at s p) (s.time.reading s.time.taken))
              (s.time.reading s.time.taken))
      × ((q : Str)
          → path_of (p ∷ []) ≢ path_of (q ∷ [])
          → view_at (set_shared s p values false merge_all).1 q ≡ view_at s q)
      × IsUnshared
          (set_shared s p values false merge_all).1.docs
          (set_shared s p values false merge_all).1.maps
unfolding tick now_of seen
view_at-set_shared s p values merge_all checked u fresh map =
    rw (set_shared-set_doc s p values merge_all checked) (
      refl,
      set_doc-IsLeft (tick s) (path_of (p ∷ [])) values (Assoc.lookup (path_of (p ∷ [])) s.docs)
          merge_all (s.time.reading s.time.taken) map,
      λ q apart.
          set_doc-frame (tick s) (path_of (p ∷ [])) (path_of (q ∷ [])) values _ merge_all
            (s.time.reading s.time.taken) u refl apart,
      set_doc-IsUnshared (tick s) (path_of (p ∷ [])) values _ merge_all
          (s.time.reading s.time.taken) refl u fresh,
    )

-- `Update` is a merge that leaves the times, and the set of paths, as they were.
pub update_shared-set_doc :
    (s : Shared) (p : Str) (values : Option ℕ) (doc : SharedDocument)
    → check_path (path_of (p ∷ [])) ≡ ok tt
    → Assoc.lookup (path_of (p ∷ [])) s.docs ≡ some doc
    → update_shared s p values ≡ (
      ok tt,
      record (set_doc s (path_of (p ∷ [])) values (some doc) true doc.updated) {
        path_set = s.path_set;
      },
    )
unfolding update_shared set_doc keep merge_into
update_shared-set_doc s p values doc checked found = rw (update_shared, checked, found) refl

-- Where maps are references, no two documents share one, and a document stands at a document path,
-- `Update` succeeds. Afterwards each value at the path is the one given, or, where none is given
-- under the name, the one that stood there, and both times are those of before. All other paths
-- show what they showed, and no two documents share a map.
pub view_at-update_shared :
    (s : Shared) (p : Str) (values : Option ℕ) (old : Document)
    → check_path (path_of (p ∷ [])) ≡ ok tt
    → IsUnshared s.docs s.maps
    → IsMap (entries_at s.maps values)
    → view_at s p ≡ some old
    → ((update_shared s p values).0 ≡ ok tt)
      × ((d : Document) × (view_at (update_shared s p values).1 p ≡ some d)
          × IsLeft d
              (values_after true (entries_at s.maps values) (some old))
              old.created_at
              old.updated_at)
      × ((q : Str)
          → path_of (p ∷ []) ≢ path_of (q ∷ [])
          → view_at (update_shared s p values).1 q ≡ view_at s q)
      × IsUnshared (update_shared s p values).1.docs (update_shared s p values).1.maps
unfolding seen shown created_or set_doc keep merge_into
view_at-update_shared s p values old checked u map there =
    elim (Option-cases (Assoc.lookup (path_of (p ∷ [])) s.docs)) [
      | inl e ↦
          let nothing : none ≡ some old = ap (shown_of s.maps) (sym e) ∙ there in
          absurd (ground (arith, nothing))
      | inr (doc, e) ↦
          let held : some (shown s.maps doc) ≡ some old = ap (shown_of s.maps) (sym e) ∙ there in
          let same : old ≡ shown s.maps doc = ground (arith, held) in
          rw (update_shared-set_doc s p values doc checked e, same)
            (
              refl,
              set_doc-IsLeft s (path_of (p ∷ [])) values (some doc) true doc.updated map,
              λ q apart.
                  set_doc-frame s (path_of (p ∷ [])) (path_of (q ∷ [])) values (some doc) true
                    doc.updated u e apart,
              merged-IsUnshared s.docs s.maps u (path_of (p ∷ [])) doc e (entries_at s.maps values)
                  _ refl,
            )
    ]
