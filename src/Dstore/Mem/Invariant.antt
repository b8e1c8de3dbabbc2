-- ===== src/Dstore/Mem/Invariant.antt =====
-- dstore/mem.go: the set of paths and the map of documents agree, and every method keeps that.
use keys.Common.{
  List, [], ◌∷◌, Option, none, some, Bool, true, false, Str, str_eq_iff, if◌then◌else◌, Result, ok,
  err, ◌≡◌, refl, arith, Option-cases, Result-cases, inl, inr, ◌∙◌,
}
use keys.Common.Assoc
use keys.Common.Assoc.{Assoc, lookup-insert, lookup-erase}
use keys.Dstore.Path.{path_of}
use keys.Dstore.Path.Laws.{path_of-path_of}
use keys.Dstore.StringSet
use keys.Dstore.StringSet.{StringSet}
use keys.Dstore.StringSet.Laws
use keys.Dstore.StringSet.Laws.{contains-add, contains-remove}
use keys.Tsutil.{Time}
use keys.Dstore.Document.{Document, Value, new_document}
use keys.Dstore.Document.Laws.{doc_path-set_values}
use keys.Dstore.Mem.{
  Mem, Clock, Error, path_exists, document, check_path, entries, written, store, now, set_checked,
  set, update, delete, delete_all, new_mem, set_clock,
}

abbrev pub is_some : Option Document → Bool
is_some none = false
is_some (some d) = true

-- A document stands at its own path, which is a document path in normal form.
abbrev pub IsNamed : Str → Document → Type 0
IsNamed k d = (d.doc_path ≡ k) × (path_of (k ∷ []) ≡ k) × (check_path k ≡ ok tt)

pub record IsConsistent (m : Mem) : Type 0 where
  pub valid : Laws.IsValid m.paths
  pub agree : (k : Str) → StringSet.contains m.paths k ≡ is_some (document m k)
  pub named : (k : Str) (d : Document) → document m k ≡ some d → IsNamed k d

pub new_mem-IsConsistent : (clock : Clock) → IsConsistent (new_mem clock)
unfolding new_mem document Assoc.lookup StringSet.contains StringSet.new_string_set
new_mem-IsConsistent clock = record {
  valid = Laws.new_string_set-IsValid;
  agree = λ k. refl;
  named = λ k d e. cc;
}

module _ {m : Mem} (c : IsConsistent m) where
  pub now-IsConsistent : IsConsistent (now m).1
  unfolding now document
  now-IsConsistent = record { valid = c.valid; agree = c.agree; named = c.named }

  pub set_clock-IsConsistent : (clock : Clock) → IsConsistent (set_clock m clock)
  unfolding set_clock document
  set_clock-IsConsistent clock = record { valid = c.valid; agree = c.agree; named = c.named }

  pub store-IsConsistent :
      (path : Str) (doc : Document) → IsNamed path doc → IsConsistent (store m path doc)
  unfolding store document
  store-IsConsistent path doc n = record {
    valid = Laws.add-IsValid c.valid path;
    agree = λ k.
        ground (arith, contains-add m.paths path k, lookup-insert path k doc m.values, c.agree k);
    named = λ k d e.
        ground (arith, lookup-insert path k doc m.values, c.named k d, str_eq_iff path k, n);
  }

  -- A document may change where it stands.
  change_at-IsConsistent :
      (path : Str) (old doc : Document)
      → document m path ≡ some old
      → IsNamed path doc
      → IsConsistent (record m { values = Assoc.insert path doc m.values })
  unfolding document
  change_at-IsConsistent path old doc e n = record {
    valid = c.valid;
    agree = λ k. ground (arith, lookup-insert path k doc m.values, c.agree k, str_eq_iff path k);
    named = λ k d h.
        ground (arith, lookup-insert path k doc m.values, c.named k d, str_eq_iff path k, n);
  }

  delete_at-IsConsistent :
      (path : Str)
      → IsConsistent
          (record m { values = Assoc.erase path m.values; paths = StringSet.remove m.paths path })
  unfolding document
  delete_at-IsConsistent path = record {
    valid = Laws.remove-IsValid c.valid path;
    agree = λ k.
        ground (arith, contains-remove m.paths path k, lookup-erase path k m.values, c.agree k);
    named = λ k d e. ground (arith, lookup-erase path k m.values, c.named k d);
  }

doc_path-written :
    (o : Option Document) (path : Str) (values : Option (Assoc Value)) (merge_all : Bool)
    (at : Time)
    → path_of (path ∷ []) ≡ path
    → ((d : Document) → o ≡ some d → d.doc_path ≡ path)
    → (written o path values merge_all at).doc_path ≡ path
unfolding written new_document
doc_path-written none path values merge_all at e h = e
doc_path-written (some d) path values true at e h =
    doc_path-set_values d (entries values) ∙ h d refl
doc_path-written (some d) path values false at e h = h d refl

module _ {m : Mem} (c : IsConsistent m) where
  set_checked-IsConsistent :
      (path : Str) (values : Option (Assoc Value)) (create merge_all : Bool)
      → path_of (path ∷ []) ≡ path
      → check_path path ≡ ok tt
      → IsConsistent (set_checked m path values create merge_all).1
  unfolding set_checked
  set_checked-IsConsistent path values create merge_all e k =
      elim (Option-cases (document m path)) [
        | inl new ↦
            rw (set_checked, new)
              (store-IsConsistent (now-IsConsistent c) path _
                (doc_path-written none path values merge_all _ e (λ d h. cc), e, k))
        | inr (doc, old) ↦ rw (set_checked, old) (by_create create doc old)
      ]
    where
      by_create :
          (b : Bool) (doc : Document)
          → document m path ≡ some doc
          → IsConsistent
              (if b then (let r : Result Error Unit × Mem = (err (path_exists path), m) in r) else (
                ok tt,
                store (now m).1 path (written (some doc) path values merge_all (now m).0),
              )).1
      by_create true doc old = c
      by_create false doc old = store-IsConsistent (now-IsConsistent c) path _ (
        doc_path-written (some doc) path values merge_all _ e (λ d h. (c.named path d (old ∙ h)).0),
        e,
        k,
      )

  -- `set` keeps a store consistent, whether or not it fails: the set of paths is valid and has
  -- exactly the paths of the documents, and each document stands at its own path, a document path
  -- in normal form.
  pub set-IsConsistent :
      (p : Str) (values : Option (Assoc Value)) (create merge_all : Bool)
      → IsConsistent (set m p values create merge_all).1
  unfolding set
  set-IsConsistent p values create merge_all = elim (Result-cases (check_path (path_of (p ∷ [])))) [
    | inl (_, h) ↦
        rw (set, h)
          (set_checked-IsConsistent _ values create merge_all (path_of-path_of (p ∷ [])) h)
    | inr (e, h) ↦ rw (set, h) c
  ]

  -- `Update` keeps a store consistent, whether or not it fails.
  pub update-IsConsistent :
      (p : Str) (values : Option (Assoc Value)) → IsConsistent (update m p values).1
  unfolding update
  update-IsConsistent p values = elim (Result-cases (check_path (path_of (p ∷ [])))) [
    | inr (e, h) ↦ rw (update, h) c
    | inl (_, h) ↦ elim (Option-cases (document m (path_of (p ∷ [])))) [
      | inl none_here ↦ rw (update, h, none_here) c
      | inr (doc, old) ↦
          rw (update, h, old)
            (change_at-IsConsistent c _ doc _ old (
              let (named, normal, checked) = c.named _ doc old in
              (doc_path-set_values doc (entries values) ∙ named, normal, checked)))
    ]
  ]

  pub delete-IsConsistent : (p : Str) → IsConsistent (delete m p).1
  unfolding delete
  delete-IsConsistent p = elim (Option-cases (document m (path_of (p ∷ [])))) [
    | inl none_here ↦ rw (delete, none_here) c
    | inr (doc, old) ↦ rw (delete, old) (delete_at-IsConsistent c (path_of (p ∷ [])))
  ]

-- `DeleteAll` keeps a store consistent.
pub delete_all-IsConsistent :
    (m : Mem) (ps : List Str) → IsConsistent m → IsConsistent (delete_all m ps)
unfolding delete_all
delete_all-IsConsistent m [] c = c
delete_all-IsConsistent m (p ∷ ps) c =
    delete_all-IsConsistent (delete m p).1 ps (delete-IsConsistent c p)
