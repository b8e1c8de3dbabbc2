-- ===== src/Dstore/Mem/Events/Consistent.antt =====
-- dstore/mem.go: the event log keeps the store consistent, and numbers the events in order.
use keys.Common.{
  ℕ, length, subst, zero, suc, List, [], ◌∷◌, ◌++◌, Option, some, true, false, Str, codes, Result,
  ok, err, ◌≡◌, refl, arith, ap, ◌∙◌, sym, Result-cases, Bool-cases, inl, inr, append-nil,
  append_assoc,
}
use keys.Common.Int.{ℤ, incr}
use keys.Common.Assoc.{Assoc}
use keys.Dstore.Path.{path_of}
use keys.Dstore.Document.{Document, Value, int64, paths_of}
use keys.Tsutil.{millis_of}
use keys.Dstore.Options.{SetOption, merging_all}
use keys.Dstore.Mem.{Mem, Error, now, get, set_document, create_document, delete}
use keys.Dstore.Mem.Listing.{list}
use keys.Dstore.Mem.Invariant.{
  IsConsistent, now-IsConsistent, set-IsConsistent, delete-IsConsistent, delete_all-IsConsistent,
}
use keys.Dstore.Mem.Events.{
  Event, index_of, log_path, then_return, create_event, add_event, add_events, events_add,
  events_delete,
}

set_document-IsConsistent :
    (m : Mem) (p : Str) (values : Option (Assoc Value)) (opts : List SetOption)
    → IsConsistent m
    → IsConsistent (set_document m p values opts).1
unfolding set_document
set_document-IsConsistent m p values opts c = set-IsConsistent c p values false _

create_document-IsConsistent :
    (m : Mem) (p : Str) (values : Option (Assoc Value))
    → IsConsistent m
    → IsConsistent (create_document m p values).1
unfolding create_document
create_document-IsConsistent m p values c = set-IsConsistent c p values true false

then_return-lem : {A : Type 0} (r : Result Error Unit × Mem) (a : A) → (then_return r a).1 ≡ r.1
unfolding then_return
then_return-lem (ok _, m) a = refl
then_return-lem (err e, m) a = refl

create_event-IsConsistent :
    (m : Mem) (path : Str) (idx : ℤ) (b : Option Str) (id : Str)
    → IsConsistent m
    → IsConsistent (create_event m path idx b id).1
unfolding create_event
create_event-IsConsistent m path idx b id c =
    subst IsConsistent (sym (then_return-lem _ _))
      (create_document-IsConsistent (now m).1 (log_path path id) _ (now-IsConsistent c))

add_event-IsConsistent :
    (m : Mem) (path : Str) (idx : ℤ) (b : Option Str) (id : Str)
    → IsConsistent m
    → IsConsistent (add_event m path idx b id).1
unfolding add_event
add_event-IsConsistent m path idx b id c =
    let s =
      set_document-IsConsistent m path (some ((codes "idx", int64 idx) ∷ [])) (merging_all ∷ [])
        c in
    elim (Result-cases
      (set_document m path (some ((codes "idx", int64 idx) ∷ [])) (merging_all ∷ [])).0) [
        | inr (e, h) ↦ rw (add_event, h) s
        | inl (_, h) ↦ rw (add_event, h) (create_event-IsConsistent _ path idx b id s)
      ]

add_events-IsConsistent :
    (m : Mem) (path : Str) (idx : ℤ) (items : List (Option Str × Str)) (out : List Event)
    → IsConsistent m
    → IsConsistent (add_events m path idx items out).1
unfolding add_events
add_events-IsConsistent m path idx [] out c = c
add_events-IsConsistent m path idx ((b, id) ∷ items) out c =
    let a = add_event-IsConsistent m path (incr idx) b id c in
    elim (Result-cases (add_event m path (incr idx) b id).0) [
      | inr (e, h) ↦ rw (add_events, h) a
      | inl (event, h) ↦
          rw (add_events, h)
            (add_events-IsConsistent (add_event m path (incr idx) b id).1 path (incr idx) items
              (out ++ event ∷ []) a)
    ]

-- `EventsAdd` keeps a store consistent, whether or not it fails.
pub events_add-IsConsistent :
    (m : Mem) (path : Str) (items : List (Option Str × Str))
    → IsConsistent m
    → IsConsistent (events_add m path items).1
unfolding events_add
events_add-IsConsistent m path items c = elim (Result-cases (get m path)) [
  | inr (e, h) ↦ rw (events_add, h) c
  | inl (doc, h) ↦ rw (events_add, h) (add_events-IsConsistent m path (index_of doc) items [] c)
]

-- `EventsDelete` keeps a store consistent, whether or not it fails.
pub events_delete-IsConsistent :
    (m : Mem) (path : Str) → IsConsistent m → IsConsistent (events_delete m path).1
unfolding events_delete
events_delete-IsConsistent m path c =
    let d = delete-IsConsistent c path in
    elim (Bool-cases (delete m path).0) [
      | inr none_here ↦ rw (events_delete, none_here) d
      | inl found ↦
          elim (Result-cases (list (delete m path).1 (path_of (path ∷ codes "log" ∷ [])) [])) [
            | inr (e, h) ↦ rw (events_delete, found, h) d
            | inl (docs, h) ↦
                rw (events_delete, found, h) (delete_all-IsConsistent _ (paths_of docs) d)
          ]
    ]

-- The `n` indices behind `idx`, and the last of them.
unfoldable pub indices_from : ℤ → ℕ → List ℤ
indices_from idx zero = []
indices_from idx (suc n) = incr idx ∷ indices_from (incr idx) n

unfoldable pub index_after : ℤ → ℕ → ℤ
index_after idx zero = idx
index_after idx (suc n) = index_after (incr idx) n

unfoldable pub indices_of : List Event → List ℤ
indices_of [] = []
indices_of (e ∷ es) = e.index ∷ indices_of es

indices_of-append : (es fs : List Event) → indices_of (es ++ fs) ≡ indices_of es ++ indices_of fs
unfolding indices_of
indices_of-append [] fs = refl
indices_of-append (e ∷ es) fs = ap (◌∷◌ e.index) (indices_of-append es fs)

then_return-eq-ok :
    {A : Type 0} (r : Result Error Unit × Mem) (a b : A) → (then_return r a).0 ≡ ok b → a ≡ b
unfolding then_return
then_return-eq-ok (ok _, m) a b h = ground arith
then_return-eq-ok (err e, m) a b h = ground arith

index-create_event :
    (m : Mem) (path : Str) (idx : ℤ) (b : Option Str) (id : Str) (event : Event)
    → (create_event m path idx b id).0 ≡ ok event
    → event.index ≡ idx
unfolding create_event
index-create_event m path idx b id event h =
    ap (λ e. e.index)
      (sym (
        then_return-eq-ok _ (record { payload = b; index = idx; timestamp = millis_of (now m).0 })
          event h))

index-add_event :
    (m : Mem) (path : Str) (idx : ℤ) (b : Option Str) (id : Str) (event : Event)
    → (add_event m path idx b id).0 ≡ ok event
    → event.index ≡ idx
unfolding add_event
index-add_event m path idx b id event h =
    elim (Result-cases
      (set_document m path (some ((codes "idx", int64 idx) ∷ [])) (merging_all ∷ [])).0) [
        | inr (e, f) ↦ ground (arith, f)
        | inl (_, f) ↦
            index-create_event
              (set_document m path (some ((codes "idx", int64 idx) ∷ [])) (merging_all ∷ [])).1 path
              idx b id event (ground (arith, f))
      ]

add_events_lem :
    (m : Mem) (path : Str) (idx : ℤ) (items : List (Option Str × Str)) (out made : List Event)
    (final : ℤ)
    → (add_events m path idx items out).0 ≡ ok (made, final)
    → (indices_of made ≡ indices_of out ++ indices_from idx (length items))
      × (final ≡ index_after idx (length items))
unfolding add_events indices_from index_after indices_of
add_events_lem m path idx [] out made final h =
    (ground (arith, append-nil (indices_of out)), ground arith)
add_events_lem m path idx ((b, id) ∷ items) out made final h =
    elim (Result-cases (add_event m path (incr idx) b id).0) [
      | inr (e, f) ↦ ground (arith, f)
      | inl (event, f) ↦
          (let (is, last) =
              add_events_lem (add_event m path (incr idx) b id).1 path (incr idx) items
                (out ++ event ∷ []) made final (ground (arith, f)) in
            (
              is
                  ∙ (ap (λ l. l ++ indices_from (incr idx) (length items))
                        (indices_of-append out (event ∷ []))
                      ∙ (append_assoc (indices_of out) (event.index ∷ []) _
                          ∙ ap (λ i. indices_of out ++ i ∷ indices_from (incr idx) (length items))
                              (index-add_event m path (incr idx) b id event f))),
              last,
            ))
    ]

-- Where `EventsAdd` succeeds, the events that it returns have the indices that follow the index of
-- the document at the path, or 0 where there is none, one for each data in order, and the index
-- that it returns is the last of those.
pub events_add_lem :
    (m : Mem) (path : Str) (doc : Option Document) (items : List (Option Str × Str))
    (made : List Event) (final : ℤ)
    → get m path ≡ ok doc
    → (events_add m path items).0 ≡ ok (made, final)
    → (indices_of made ≡ indices_from (index_of doc) (length items))
      × (final ≡ index_after (index_of doc) (length items))
unfolding events_add indices_of
events_add_lem m path doc items made final found h =
    add_events_lem m path (index_of doc) items [] made final (ground (arith, found))
