-- ===== src/Dstore/Shared/Agreeing.antt =====
-- dstore/mem.go: where no two documents share a map, the store of values is the store of references.
use keys.Common.{
  ℕ, [], ◌∷◌, Option, none, some, Bool, true, false, Str, str_eq, str_eq_iff, str_eq_self, ◌≡◌, ◌≢◌,
  inl, inr, refl, sym, ap, arith, ◌∙◌, ◌+◌, Bool-cases, Option-cases, Result-cases,
}
use keys.Common.Assoc
use keys.Common.Assoc.{Assoc, lookup-insert}
use keys.Tsutil.{Time}
use keys.Dstore.Path.{path_of}
use keys.Dstore.StringSet
use keys.Dstore.Document.{Document, set_values, new_document}
use keys.Dstore.Mem.{
  Mem, Clock, check_path, document, now, entries, written, store, set_checked, set, update,
}
use keys.Dstore.Shared.{
  Maps, SharedDocument, Shared, read, entries_at, now_of, merge_into, set_all, new_with, keep,
  set_doc, tick, set_shared, update_shared, shown,
}
use keys.Dstore.Shared.Unshared.{IsUnshared, IsFresh, seen, shown-merged, merged-IsUnshared}
use keys.Dstore.Shared.Written.{shown_of, set_doc-frame, set_doc-IsUnshared}

-- The store of values has what the documents show.
pub record Agrees (s : Shared) (m : Mem) : Type 0 where
  pub docs_are : (q : Str) → seen s q ≡ document m q
  pub paths_are : s.path_set ≡ m.paths
  pub clock_is : s.time ≡ m.clock

entries-read : (h : Maps) (a : Option ℕ) → entries_at h a ≡ entries (read h a)
unfolding entries_at read
entries-read h none = refl
entries-read h (some a) = refl

-- What `set` stores is shown at its path.
seen-set_doc :
    (s : Shared) (path : Str) (values : Option ℕ) (o : Option SharedDocument) (merge_all : Bool)
    (at : Time)
    → IsUnshared s.docs s.maps
    → Assoc.lookup path s.docs ≡ o
    → seen (set_doc s path values o merge_all at) path
      ≡ some (written (shown_of s.maps o) path (read s.maps values) merge_all at)
unfolding seen set_doc keep merge_into set_all new_with shown written new_document
seen-set_doc s path values none merge_all at u found =
    rw (seen, lookup-insert path path, str_eq_self path) refl
seen-set_doc s path values (some doc) false at u found =
    rw (seen, lookup-insert path path, str_eq_self path) refl
seen-set_doc s path values (some doc) true at u found =
    rw (seen, lookup-insert path path, str_eq_self path)
      (ap {A = Document} {B = Option Document} (λ d. some (record d { updated_at = at }))
        (shown-merged s.docs s.maps u path doc found (entries_at s.maps values)
          ∙ ap (set_values (shown s.maps doc)) (entries-read s.maps values)))

set_doc-kept :
    (s : Shared) (path : Str) (values : Option ℕ) (o : Option SharedDocument) (merge_all : Bool)
    (at : Time)
    → ((set_doc s path values o merge_all at).path_set ≡ StringSet.add s.path_set path)
      × ((set_doc s path values o merge_all at).time ≡ s.time)
unfolding set_doc keep merge_into
set_doc-kept s path values none merge_all at = (refl, refl)
set_doc-kept s path values (some doc) false at = (refl, refl)
set_doc-kept s path values (some doc) true at = (refl, refl)

-- A write at one path.
seen-written :
    (s after : Shared) (m : Mem) (path q : Str) (new : Document)
    → Agrees s m
    → seen after path ≡ some new
    → (path ≢ q → seen after q ≡ seen s q)
    → seen after q ≡ Assoc.lookup q (Assoc.insert path new m.values)
unfolding document
seen-written s after m path q new a at frame = elim (Bool-cases (str_eq path q)) [
  | inl e ↦ ap (seen after) (sym ((str_eq_iff path q).0 e)) ∙ at ∙ rw (lookup-insert path q, e) refl
  | inr e ↦
      frame (λ same. ground (arith, e, (str_eq_iff path q).1 same))
      ∙ a.docs_are q
      ∙ rw (lookup-insert path q, e) refl
]

set_doc-Agrees :
    (s : Shared) (m : Mem) (path : Str) (values : Option ℕ) (o : Option SharedDocument)
    (merge_all : Bool) (at : Time)
    → Agrees s m
    → IsUnshared s.docs s.maps
    → Assoc.lookup path s.docs ≡ o
    → Agrees
        (set_doc s path values o merge_all at)
        (store m path (written (shown_of s.maps o) path (read s.maps values) merge_all at))
unfolding store document
set_doc-Agrees s m path values o merge_all at a u found = record {
  docs_are = λ q.
      seen-written s (set_doc s path values o merge_all at) m path q _ a
        (seen-set_doc s path values o merge_all at u found)
        (set_doc-frame s path q values o merge_all at u found);
  paths_are =
      (set_doc-kept s path values o merge_all at).0 ∙ ap (λ p. StringSet.add p path) a.paths_are;
  clock_is = (set_doc-kept s path values o merge_all at).1 ∙ a.clock_is;
}

tick-Agrees : (s : Shared) (m : Mem) → Agrees s m → Agrees (tick s) (now m).1
unfolding tick now now_of seen document
tick-Agrees s m a = record {
  docs_are = a.docs_are;
  paths_are = a.paths_are;
  clock_is = ap {A = Clock} {B = Clock} (λ c. record c { taken = c.taken + 1 }) a.clock_is;
}

now_of-Agrees : (s : Shared) (m : Mem) → Agrees s m → (now_of s.time).0 ≡ (now m).0
unfolding now_of now
now_of-Agrees s m a = ap (λ c. c.reading c.taken) a.clock_is

-- What the store of values has at a path.
document-Agrees :
    (s : Shared) (m : Mem) (path : Str) (o : Option SharedDocument)
    → Agrees s m
    → Assoc.lookup path s.docs ≡ o
    → document m path ≡ shown_of s.maps o
unfolding seen
document-Agrees s m path o a found = sym (a.docs_are path) ∙ ap (shown_of s.maps) found

-- A write of the two stores, where the store of values reads the same clock.
set_doc-now :
    (s : Shared) (m : Mem) (path : Str) (values : Option ℕ) (o : Option SharedDocument)
    (merge_all : Bool)
    → Agrees s m
    → IsUnshared s.docs s.maps
    → Assoc.lookup path s.docs ≡ o
    → Agrees (set_doc (tick s) path values o merge_all (now_of s.time).0) (
        store
          (now m).1
          path
          (written (shown_of s.maps o) path (read s.maps values) merge_all (now m).0))
unfolding tick
set_doc-now s m path values o merge_all a u found = rw (sym (now_of-Agrees s m a)) (
    set_doc-Agrees (tick s) (now m).1 path values o merge_all (now_of s.time).0 (tick-Agrees s m a)
      u found)

-- `Set` and `Create` of a map that no document has: where the stores agree and no two documents
-- share a map, the results are the same, and so it is afterwards.
pub set_shared-Agrees :
    (s : Shared) (m : Mem) (p : Str) (values : Option ℕ) (create merge_all : Bool)
    → Agrees s m
    → IsUnshared s.docs s.maps
    → IsFresh s.docs s.maps values
    → ((set_shared s p values create merge_all).0
        ≡ (set m p (read s.maps values) create merge_all).0)
      × Agrees
          (set_shared s p values create merge_all).1
          (set m p (read s.maps values) create merge_all).1
      × IsUnshared
          (set_shared s p values create merge_all).1.docs
          (set_shared s p values create merge_all).1.maps
unfolding set_shared set set_checked tick
set_shared-Agrees s m p values create merge_all a u fresh =
    elim (Result-cases (check_path (path_of (p ∷ [])))) [
      | inr (e, h) ↦ rw (set_shared, set, h) (refl, a, u)
      | inl (_, h) ↦ elim (Option-cases (Assoc.lookup (path_of (p ∷ [])) s.docs)) [
        | inl e ↦
            rw (set_shared, set, set_checked, h, e, document-Agrees s m (path_of (p ∷ [])) none a e)
              (
                refl,
                set_doc-now s m (path_of (p ∷ [])) values none merge_all a u e,
                set_doc-IsUnshared (tick s) (path_of (p ∷ [])) values none merge_all _ e u fresh,
              )
        | inr (doc, e) ↦ elim (Bool-cases create) [
          | inl c ↦
              rw
                (
                  set_shared,
                  set,
                  set_checked,
                  h,
                  e,
                  document-Agrees s m (path_of (p ∷ [])) (some doc) a e,
                  c,
                )
                (refl, a, u)
          | inr c ↦
              rw
                (
                  set_shared,
                  set,
                  set_checked,
                  h,
                  e,
                  document-Agrees s m (path_of (p ∷ [])) (some doc) a e,
                  c,
                )
                (
                  refl,
                  set_doc-now s m (path_of (p ∷ [])) values (some doc) merge_all a u e,
                  set_doc-IsUnshared (tick s) (path_of (p ∷ [])) values (some doc) merge_all _ e u
                      fresh,
                )
        ]
      ]
    ]

merge_into-Agrees :
    (s : Shared) (m : Mem) (path : Str) (values : Option ℕ) (doc : SharedDocument)
    → Agrees s m
    → IsUnshared s.docs s.maps
    → Assoc.lookup path s.docs ≡ some doc
    → Agrees
        (record (merge_into s doc values).1 {
          docs = Assoc.insert path (merge_into s doc values).0 s.docs;
        })
        (record m {
          values =
              Assoc.insert path
                (set_values (shown s.maps doc) (entries (read s.maps values)))
                m.values;
        })
unfolding merge_into seen document set_doc keep
merge_into-Agrees s m path values doc a u found = record {
  docs_are = λ q.
      seen-written s
        (record (merge_into s doc values).1 {
          docs = Assoc.insert path (merge_into s doc values).0 s.docs;
        })
        m path q _ a
        (rw (seen, lookup-insert path path, str_eq_self path)
          (ap some (
            shown-merged s.docs s.maps u path doc found (entries_at s.maps values)
            ∙ ap (set_values (shown s.maps doc)) (entries-read s.maps values))))
        (set_doc-frame s path q values (some doc) true doc.updated u found);
  paths_are = a.paths_are;
  clock_is = a.clock_is;
}

-- `Update`: where the stores agree and no two documents share a map, the results are the same, and
-- so it is afterwards.
pub update_shared-Agrees :
    (s : Shared) (m : Mem) (p : Str) (values : Option ℕ)
    → Agrees s m
    → IsUnshared s.docs s.maps
    → ((update_shared s p values).0 ≡ (update m p (read s.maps values)).0)
      × Agrees (update_shared s p values).1 (update m p (read s.maps values)).1
      × IsUnshared (update_shared s p values).1.docs (update_shared s p values).1.maps
unfolding update_shared update merge_into
update_shared-Agrees s m p values a u = elim (Result-cases (check_path (path_of (p ∷ [])))) [
  | inr (e, h) ↦ rw (update_shared, update, h) (refl, a, u)
  | inl (_, h) ↦ elim (Option-cases (Assoc.lookup (path_of (p ∷ [])) s.docs)) [
    | inl e ↦
        rw (update_shared, update, h, e, document-Agrees s m (path_of (p ∷ [])) none a e)
          (refl, a, u)
    | inr (doc, e) ↦
        rw (update_shared, update, h, e, document-Agrees s m (path_of (p ∷ [])) (some doc) a e)
          (
            refl,
            merge_into-Agrees s m (path_of (p ∷ [])) values doc a u e,
            merged-IsUnshared s.docs s.maps u (path_of (p ∷ [])) doc e (entries_at s.maps values) _
                refl,
          )
  ]
]
