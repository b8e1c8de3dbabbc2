-- ===== src/Dstore/Mem/Events.antt =====
-- dstore/mem.go and dstore/events: the event log of the store. An event stands in a document below
-- the log of its path, under a random identifier, which is given here with the data of the event.
-- The lock is taken by each of the calls, so that these functions are the runs of one caller.
pub mod Consistent
use keys.Common.{
  ℕ, zero, suc, ◌+◌, List, [], ◌∷◌, ◌++◌, Option, none, some, Bool, true, false, ◌&&◌, ◌||◌, not,
  ◌==◌, leb, ltb, Str, str_eq, has_prefix, codes, length, take, drop, if◌then◌else◌, Result, ok,
  err, ◌>>=◌, ◌>>◌, fail_if,
}
use keys.Common.Int.{ℤ, pos, negsuc, int_eq, int_ltb, incr, itoa}
use keys.Common.Assoc
use keys.Common.Assoc.{Assoc}
use keys.Encoding.Base64
use keys.Tsutil.{Time, millis_of}
use keys.Dstore.Path.{path_of}
use keys.Dstore.StringSet
use keys.Dstore.Document.{Document, Value, int64, get_int, data_of, of_data, paths_of}
use keys.Dstore.Options.{merging_all}
use keys.Dstore.Mem.{
  Mem, Error, not_found, invalid_event, now, get, set_document, create_document, delete, delete_all,
}
use keys.Dstore.Mem.Listing.{list}

-- `data` is `none` where it is nil.
pub record Event : Type 0 where
  pub payload : Option Str
  pub index : ℤ
  pub timestamp : ℤ

pub record Position : Type 0 where
  pub path : Str
  pub index : ℤ
  pub timestamp : ℤ

-- A direction is a text; any other than the two named ones does not sort.
pub data Direction : Type 0 where
  ascending descending unsorted : Direction

pub record EventOptions : Type 0 where
  pub index : ℤ
  pub limit : ℤ
  pub direction : Direction

-- `json.Marshal(event)`.
unfoldable pub encode_event : Event → Str
encode_event e =
    codes "{\"data\":"
    ++ (elim e.payload [ none ↦ codes "null" | some b ↦ b'"' ∷ Base64.encode b ++ b'"' ∷ [] ])
    ++ codes ",\"idx\":"
    ++ itoa e.index
    ++ codes ",\"ts\":"
    ++ itoa e.timestamp
    ++ b'}' ∷ []

-- `idx, _ = doc.Int64("idx")`, where 0 is the index of no document.
unfoldable pub index_of : Option Document → ℤ
index_of none = pos 0
index_of (some doc) = elim (get_int doc (codes "idx")) [ none ↦ pos 0 | some i ↦ i ]

-- `path := Path(path, "log", id)`.
unfoldable pub log_path : Str → Str → Str
log_path path id = path_of (path ∷ codes "log" ∷ id ∷ [])

-- `if err := call; err != nil { return err }` with the value to return otherwise.
unfoldable pub then_return : {A : Type 0} → Result Error Unit × Mem → A → Result Error A × Mem
then_return (ok _, m) a = (ok a, m)
then_return (err e, m) a = (err e, m)

-- What a round of `EventsAdd` does after `Set`, and the event that it makes.
unfoldable pub create_event : Mem → Str → ℤ → Option Str → Str → Result Error Event × Mem
create_event m path idx b id =
    let event : Event = record { payload = b; index = idx; timestamp = millis_of (now m).0 } in
    then_return (create_document (now m).1 (log_path path id) (some (of_data (encode_event event))))
      event

-- A round of `EventsAdd` with the index `idx` and the data.
unfoldable pub add_event : Mem → Str → ℤ → Option Str → Str → Result Error Event × Mem
add_event m path idx b id =
    let s = set_document m path (some ((codes "idx", int64 idx) ∷ [])) (merging_all ∷ []) in
    elim s.0 [ err e ↦ (err e, s.1) | ok _ ↦ create_event s.1 path idx b id ]

-- The loop of `EventsAdd`.
unfoldable pub add_events :
    Mem → Str → ℤ → List (Option Str × Str) → List Event → Result Error (List Event × ℤ) × Mem
add_events m path idx [] out = (ok (out, idx), m)
add_events m path idx ((b, id) ∷ items) out = elim (add_event m path (incr idx) b id).0 [
  | err e ↦ (err e, (add_event m path (incr idx) b id).1)
  | ok event ↦
      add_events (add_event m path (incr idx) b id).1 path (incr idx) items (out ++ event ∷ [])
]

-- `m.EventsAdd(path, data)`.
unfoldable pub events_add :
    Mem → Str → List (Option Str × Str) → Result Error (List Event × ℤ) × Mem
events_add m path items = elim (get m path) [
  | err e ↦ (err e, m)
  | ok doc ↦ add_events m path (index_of doc) items []
]

-- The loop of `EventPositions`.
unfoldable pub positions_from : Mem → List Str → Assoc Position → Result Error (Assoc Position)
positions_from m [] positions = ok positions
positions_from m (path ∷ paths) positions = elim (get m path) [
  | err e ↦ err e
  | ok doc ↦ elim doc [
    | none ↦ positions_from m paths positions
    | some d ↦ positions_from m paths (
        Assoc.insert path
          (record { path = path; index = index_of (some d); timestamp = millis_of d.created_at })
          positions)
  ]
]

-- `m.EventPositions(paths)`.
unfoldable pub event_positions : Mem → List Str → Result Error (Assoc Position)
event_positions m paths = positions_from m paths []

-- `m.EventsDelete(path)`.
unfoldable pub events_delete : Mem → Str → Result Error Bool × Mem
events_delete m path =
    if not (delete m path).0
    then (ok false, (delete m path).1)
    else elim (list (delete m path).1 (path_of (path ∷ codes "log" ∷ [])) []) [
      | err e ↦ (err e, (delete m path).1)
      | ok docs ↦ (ok true, delete_all (delete m path).1 (paths_of docs))
    ]

-- `sort.Slice` by index. The order of events with the same index is not specified; here they keep
-- theirs.
unfoldable pub insert_event : (ℤ → ℤ → Bool) → Event → List Event → List Event
insert_event before e [] = e ∷ []
insert_event before e (f ∷ fs) =
    if before f.index e.index then f ∷ insert_event before e fs else e ∷ f ∷ fs

unfoldable pub sort_events : (ℤ → ℤ → Bool) → List Event → List Event
sort_events before [] = []
sort_events before (e ∷ es) = insert_event before e (sort_events before es)

unfoldable pub sort_by : Direction → List Event → List Event
sort_by ascending es = sort_events (λ a b. int_ltb a b) es
sort_by descending es = sort_events (λ a b. int_ltb b a) es
sort_by unsorted es = es

-- The events from the first that is past the index on; there is none without a direction.
unfoldable pub past_index : Direction → ℤ → List Event → List Event
past_index direction i [] = []
past_index direction i (e ∷ es) =
    let rest = past_index direction i es in
    if elim direction [
      | ascending ↦ int_ltb i e.index
      | descending ↦ int_ltb e.index i
      | unsorted ↦ false
    ]
    then e ∷ es
    else rest

-- `if opts.Limit > 0 && len(out) > 0 { out = out[0:min(opts.Limit, len(out))] }`.
unfoldable pub limit_events : ℤ → List Event → List Event
limit_events (pos n) es = if n == 0 then es else take n es
limit_events (negsuc n) es = es

-- `json.Unmarshal` of an event, and the decoding of a value that is a text, are parameters.
module _ (unmarshal : Str → Option Event) (decode : Str → Option Str) where
  -- The loop of `Events` over the paths in the order of insertion.
  unfoldable pub collect_events : Mem → Str → List Str → Result Error (List Event)
  collect_events m path [] = ok []
  collect_events m path (p ∷ ps) =
      let rest = collect_events m path ps in
      if not (has_prefix p (path_of (path ∷ codes "log" ∷ []) ++ codes "/")) then rest else (do
        found ← get m p
        elim found [
          | none ↦ err (not_found p)
          | some doc ↦ elim (unmarshal (elim (data_of decode doc) [ none ↦ [] | some b ↦ b ])) [
            | none ↦ err invalid_event
            | some event ↦ (do events ← rest; ok (event ∷ events))
          ]
        ])

  -- `m.Events(path, opt...)`: the events that the iterator runs over.
  unfoldable pub events : Mem → Str → EventOptions → Result Error (List Event)
  events m path opts = do
    out ← collect_events m path (StringSet.strings m.paths)
    let sorted = sort_by opts.direction out
    let started =
        if int_eq opts.index (pos 0) then sorted else past_index opts.direction opts.index sorted
    ok (limit_events opts.limit started)
