-- ===== src/Dstore/Mem/Listing.antt =====
-- dstore/mem.go: the listings of the store, `list`, `Documents`, `DocumentIterator`, `Collections`.
use keys.Common.{
  ℕ, List, [], ◌∷◌, ◌++◌, none, some, Bool, not, ◌&&◌, ◌||◌, ◌==◌, ◌+◌, Str, str_eq, has_prefix,
  codes, length, take, drop, ltb, if◌then◌else◌, Result, ok, err, ◌>>=◌,
}
use keys.Common.Int.{ℤ, pos, negsuc}
use keys.Common.Assoc
use keys.Common.Assoc.{Assoc}
use keys.Dstore.Path.{path_of, path_first}
use keys.Dstore.StringSet
use keys.Dstore.Document.{Document}
use keys.Dstore.Options.{ListOption, new_options}
use keys.Dstore.Iterator.{Iterator, new_iterator}
use keys.Dstore.Mem.{
  Mem, Error, list_root, missing_document, slice_out_of_range, only_root_collections, document,
}

-- `prefix` of `list`: empty where no prefix is asked for.
unfoldable pub list_prefix : Str → Str → Str
list_prefix path [] = []
list_prefix path (c ∷ prefix) = path_of (path ∷ (c ∷ prefix) ∷ [])

-- The two tests that skip a path.
unfoldable pub is_listed : Str → Str → Str → Bool
is_listed path prefix p =
    has_prefix p (path ++ codes "/") && (str_eq prefix [] || has_prefix p prefix)

unfoldable pub no_data_copy : Document → Document
no_data_copy doc = record doc { values = none }

-- The loop of `list` over the sorted paths.
unfoldable pub list_loop : Mem → (Str → Bool) → Bool → List Str → Result Error (List Document)
list_loop m listed no_data [] = ok []
list_loop m listed no_data (p ∷ ps) =
    let rest = list_loop m listed no_data ps in
    if not (listed p) then rest else elim (document m p) [
      | none ↦ err missing_document
      | some doc ↦ do docs ← rest; ok ((if no_data then no_data_copy doc else doc) ∷ docs)
    ]

-- `docs[idx:]` for `Index`; an index past the end leaves nothing, one below 1 everything.
unfoldable pub from_index : ℤ → List Document → List Document
from_index (pos n) docs = drop n docs
from_index (negsuc n) docs = docs

-- `docs[:limit]` for `Limit`, where 0 is no limit and a negative limit is out of range.
unfoldable pub up_to_limit : ℤ → List Document → Result Error (List Document)
up_to_limit (pos n) docs =
    if n == 0 then ok docs else if ltb n (length docs) then ok (take n docs) else ok docs
up_to_limit (negsuc n) docs = err slice_out_of_range

-- `m.list(parent, opt...)`.
unfoldable pub list : Mem → Str → List ListOption → Result Error (List Document)
list m parent opts =
    let path = path_of (parent ∷ []) in
    let options = new_options opts in
    if str_eq path (codes "/") then err list_root else (do
      docs ←
          list_loop m (is_listed path (list_prefix path options.prefix)) options.no_data
            (StringSet.sorted m.paths)
      up_to_limit options.limit (from_index options.index docs))

-- `m.Documents(parent, opt...)`.
unfoldable pub documents : Mem → Str → List ListOption → Result Error (List Document)
documents m parent opts = do docs ← list m parent opts; ok docs

-- `m.DocumentIterator(parent, opt...)`.
unfoldable pub document_iterator : Mem → Str → List ListOption → Result Error (Iterator Document)
document_iterator m parent opts = do docs ← list m parent opts; ok (new_iterator docs)

-- The loop of `Collections`: a collection at the first path of it, and the counts so far.
unfoldable pub collect : List Str → Assoc ℕ → List Str
collect [] count = []
collect (p ∷ ps) count =
    let col = path_first p in
    let seen = Assoc.lookup col count in
    let rest = collect ps (Assoc.insert col (elim seen [ none ↦ 1 | some n ↦ n + 1 ]) count) in
    elim seen [ none ↦ path_of (col ∷ []) ∷ rest | some n ↦ rest ]

-- `m.Collections(parent)`: the paths of the collections.
unfoldable pub collections : Mem → Str → Result Error (List Str)
collections m parent =
    if not (str_eq (path_of (parent ∷ [])) (codes "/"))
    then err only_root_collections
    else ok (collect (StringSet.sorted m.paths) [])
