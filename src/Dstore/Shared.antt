-- ===== src/Dstore/Shared.antt =====
-- dstore/mem.go and dstore/document.go: the writes of the store where a map is a reference. `SetAll`
-- and `With` keep the map of the caller, so that two documents can share one, and a change of the
-- one is then a change of the other.
pub mod Agreeing
pub mod Merging
pub mod Unshared
pub mod Views
pub mod Written
mod Examples
use keys.Common.{
  ℕ, ◌+◌, ◌==◌, List, [], ◌∷◌, Option, none, some, Bool, Str, if◌then◌else◌, Result, ok, err,
}
use keys.Common.Assoc
use keys.Common.Assoc.{Assoc}
use keys.Tsutil.{Time}
use keys.Dstore.Path.{path_of}
use keys.Dstore.StringSet
use keys.Dstore.StringSet.{StringSet}
use keys.Dstore.Document.{Document, Value}
use keys.Dstore.Mem.{Mem, Clock, Error, check_path, path_exists, not_found}

-- The maps by their addresses, of which those from `next` on are free.
pub record Maps : Type 0 where
  pub cell : ℕ → Assoc Value
  pub next : ℕ

-- A document whose values are at an address; `none` is the nil map.
pub record SharedDocument : Type 0 where
  pub at_path : Str
  pub map_at : Option ℕ
  pub created : Time
  pub updated : Time

pub record Shared : Type 0 where
  pub path_set : StringSet
  pub docs : Assoc SharedDocument
  pub maps : Maps
  pub time : Clock

-- The map at an address.
unfoldable pub read : Maps → Option ℕ → Option (Assoc Value)
read h none = none
read h (some a) = some (h.cell a)

-- The entries of a map, of which nil has none.
unfoldable pub entries_at : Maps → Option ℕ → Assoc Value
entries_at h none = []
entries_at h (some a) = h.cell a

unfoldable pub put : Maps → ℕ → Assoc Value → Maps
put h a m = record h { cell = λ b. if a == b then m else h.cell b }

-- `d.Set(name, i)`, in the map of the document, or in a new one where it is nil.
unfoldable pub set_entry : Maps → Option ℕ → Str → Value → Option ℕ × Maps
set_entry h none name i =
    (some h.next, record (put h h.next ((name, i) ∷ [])) { next = h.next + 1 })
set_entry h (some a) name i = (some a, put h a (Assoc.insert name i (h.cell a)))

-- `for k, v := range values { doc.Set(k, v) }`.
unfoldable pub set_entries : Maps → Option ℕ → Assoc Value → Option ℕ × Maps
set_entries h a [] = (a, h)
set_entries h a ((k, v) ∷ vs) = set_entries (set_entry h a k v).1 (set_entry h a k v).0 vs

-- `m.Now()`.
unfoldable pub now_of : Clock → Time × Clock
now_of c = (c.reading c.taken, record c { taken = c.taken + 1 })

-- The document with the values set, and the store with what that leaves of the maps.
unfoldable pub merge_into : Shared → SharedDocument → Option ℕ → SharedDocument × Shared
merge_into s doc values =
    let written = set_entries s.maps doc.map_at (entries_at s.maps values) in
    (record doc { map_at = written.0 }, record s { maps = written.1 })

-- `d.SetAll(m)`, which keeps the map that it is given.
unfoldable pub set_all : SharedDocument → Option ℕ → SharedDocument
set_all d m = record d { map_at = m }

-- `NewDocument(path).With(values)` with both times. `With` keeps the map that it is given, and drops
-- the empty one of `NewDocument`, which nobody else has.
unfoldable pub new_with : Str → Option ℕ → Time → SharedDocument
new_with p values at = record {
  at_path = path_of (p ∷ []);
  map_at = values;
  created = at;
  updated = at;
}

-- `m.values[path] = doc; m.paths.Add(path)`.
unfoldable pub keep : Shared → Str → SharedDocument → Shared
keep s path doc = record s {
  docs = Assoc.insert path doc s.docs;
  path_set = StringSet.add s.path_set path;
}

-- `m.set` past the checks on the path, where `at` is what the clock reads.
unfoldable pub set_doc : Shared → Str → Option ℕ → Option SharedDocument → Bool → Time → Shared
set_doc s path values none merge_all at = keep s path (new_with path values at)
set_doc s path values (some doc) merge_all at =
    if merge_all
    then keep (merge_into s doc values).1 path (record (merge_into s doc values).0 { updated = at })
    else keep s path (record (set_all doc values) { updated = at })

unfoldable pub tick : Shared → Shared
tick s = record s { time = (now_of s.time).1 }

-- `m.set(path, values, create, mergeAll)`, whose values are the map at an address.
unfoldable pub set_shared : Shared → Str → Option ℕ → Bool → Bool → Result Error Unit × Shared
set_shared s p values create merge_all =
    let path = path_of (p ∷ []) in
    elim (check_path path) [
      | err e ↦ (err e, s)
      | ok _ ↦ elim (Assoc.lookup path s.docs) [
        | none ↦ (ok tt, set_doc (tick s) path values none merge_all (now_of s.time).0)
        | some doc ↦
            if create
            then (err (path_exists path), s)
            else (ok tt, set_doc (tick s) path values (some doc) merge_all (now_of s.time).0)
      ]
    ]

-- `m.Update(path, values)`.
unfoldable pub update_shared : Shared → Str → Option ℕ → Result Error Unit × Shared
update_shared s p values =
    let path = path_of (p ∷ []) in
    elim (check_path path) [
      | err e ↦ (err e, s)
      | ok _ ↦ elim (Assoc.lookup path s.docs) [
        | none ↦ (err (not_found path), s)
        | some doc ↦
            let merged = merge_into s doc values in
            (ok tt, record merged.1 { docs = Assoc.insert path merged.0 merged.1.docs })
      ]
    ]

-- A document with the values that it has now.
unfoldable pub shown : Maps → SharedDocument → Document
shown h d = record {
  doc_path = d.at_path;
  values = read h d.map_at;
  created_at = d.created;
  updated_at = d.updated;
}
