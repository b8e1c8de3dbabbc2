-- ===== src/Users/Search.antt =====
-- users/search.go: the search for users by a prefix of their names, or by a key.
use keys.Common.{
  ℕ, zero, suc, ◌≤◌, length, ◌≡◌, arith, Result-cases, Option-cases, Bool-cases, inl, inr, List, [],
  ◌∷◌, Option, none, some, ◌==◌, Str, codes, if◌then◌else◌, Result, ok, err, ◌>>=◌,
}
use keys.Common.Int.{ℤ, pos, negsuc}
use keys.Id.{parse_id}
use keys.EdX25519.{PublicKey}
use keys.Statement.{Statement}
use keys.Dstore.Document.{Document}
use keys.Dstore.Options.{with_prefix}
use keys.Dstore.Mem.{Mem}
use keys.User.Result.{UserResult}
use keys.Users.{KeyJson, Error, negative_limit, search_index, key_document_from}
use keys.Users.Update.{Setting, find}
use keys.Users.Listing.{iterated}

pub record SearchRequest : Type 0 where
  pub query : Str
  pub limit : ℤ

pub record SearchResult : Type 0 where
  pub found_kid : Str
  pub found_result : Option UserResult
  pub field : Str

-- `limit := req.Limit`, where 0 is 100.
unfoldable pub limit_of : ℤ → ℤ
limit_of (pos n) = if n == 0 then pos 100 else pos n
limit_of (negsuc n) = negsuc n

module _ (j : KeyJson) (decode : Str → Option Str) where
  -- The loop of `searchUsers`, with room for `limit` results more.
  unfoldable pub search_docs : ℕ → List Document → Result Error (List SearchResult)
  search_docs limit [] = ok []
  search_docs zero (doc ∷ docs) = ok []
  search_docs (suc limit) (doc ∷ docs) =
      let rest = search_docs limit docs in
      do
        d ← key_document_from j decode doc
        results ← rest
        ok (record { found_kid = d.doc_kid; found_result = d.result; field = [] } ∷ results)

  -- `u.searchUsers(query, limit)`; `make` panics on a negative limit.
  unfoldable pub search_users : Mem → Str → ℤ → Result Error (List SearchResult)
  search_users m query (negsuc n) = do
    _ ← iterated m search_index (with_prefix query ∷ [])
    err negative_limit
  search_users m query (pos n) = do
    docs ← iterated m search_index (with_prefix query ∷ [])
    search_docs n docs

  -- `u.Search(req)`.
  unfoldable pub search :
      Setting
      → (Str → Option Statement)
      → (PublicKey → Str)
      → Mem
      → SearchRequest
      → Result Error (List SearchResult)
  search e statement_of x25519_id m req = elim (parse_id req.query) [
    | err _ ↦ search_users m req.query (limit_of req.limit)
    | ok kid ↦ do
      res ← find j decode e statement_of x25519_id m kid
      elim res [
        | none ↦ search_users m req.query (limit_of req.limit)
        | some r ↦ ok (record { found_kid = kid; found_result = some r; field = codes "kid" } ∷ [])
      ]
  ]

search_docs-length :
    (j : KeyJson) (decode : Str → Option Str) (limit : ℕ) (docs : List Document)
    (results : List SearchResult)
    → search_docs j decode limit docs ≡ ok results
    → length results ≤ limit
unfolding search_docs
search_docs-length j decode limit [] results h = ground arith
search_docs-length j decode zero (doc ∷ docs) results h = ground arith
search_docs-length j decode (suc limit) (doc ∷ docs) results h =
    elim (Result-cases (key_document_from j decode doc)) [
      | inr (e, f) ↦ ground (arith, f)
      | inl (d, f) ↦ elim (Result-cases (search_docs j decode limit docs)) [
        | inr (e, g) ↦ ground (arith, f, g)
        | inl (rest, g) ↦ ground (arith, f, g, search_docs-length j decode limit docs rest g)
      ]
    ]

search_users-length :
    (j : KeyJson) (decode : Str → Option Str) (m : Mem) (query : Str) (n : ℕ)
    (results : List SearchResult)
    → search_users j decode m query (pos n) ≡ ok results
    → length results ≤ n
unfolding search_users
search_users-length j decode m query n results h =
    elim (Result-cases (iterated m search_index (with_prefix query ∷ []))) [
      | inr (e, f) ↦ ground (arith, f)
      | inl (docs, f) ↦ search_docs-length j decode n docs results (ground (arith, f))
    ]

-- The most results of a search with a limit. With a negative one, only the query of a key succeeds.
abbrev pub most_results : ℤ → ℕ
most_results (pos n) = if n == 0 then 100 else n
most_results (negsuc n) = 1

-- A search by names has at most as many results as its limit, which is not negative.
search_users-limit_of :
    (j : KeyJson) (decode : Str → Option Str) (m : Mem) (query : Str) (limit : ℤ)
    (results : List SearchResult)
    → search_users j decode m query (limit_of limit) ≡ ok results
    → length results ≤ most_results limit
unfolding limit_of
search_users-limit_of j decode m query (pos n) results h = elim (Bool-cases (n == 0)) [
  | inl z ↦ rw z (search_users-length j decode m query 100 results (rw z at h))
  | inr nz ↦ rw nz (search_users-length j decode m query n results (rw nz at h))
]
search_users-limit_of j decode m query (negsuc n) results h =
    elim (Result-cases (iterated m search_index (with_prefix query ∷ []))) [
      | inr (e, f) ↦ unfold search_users in ground (arith, f)
      | inl (docs, f) ↦ unfold search_users in ground (arith, f)
    ]

most_results-positive : (limit : ℤ) → 1 ≤ most_results limit
most_results-positive (pos n) = ground arith
most_results-positive (negsuc n) = omega arith

-- A search that succeeds has at most as many results as its limit, where 0 stands for 100, and at
-- most one where the limit is negative.
pub length-search :
    (j : KeyJson) (decode : Str → Option Str) (e : Setting) (statement_of : Str → Option Statement)
    (x25519_id : PublicKey → Str) (m : Mem) (req : SearchRequest) (results : List SearchResult)
    → search j decode e statement_of x25519_id m req ≡ ok results
    → length results ≤ most_results req.limit
unfolding search
length-search j decode e statement_of x25519_id m req results h =
    let by_names = search_users-limit_of j decode m req.query req.limit results in
    let one = most_results-positive req.limit in
    elim (Result-cases (parse_id req.query)) [
      | inr (x, f) ↦ by_names (ground (arith, f))
      | inl (kid, f) ↦ elim (Result-cases (find j decode e statement_of x25519_id m kid)) [
        | inr (x, g) ↦ ground (arith, f, g)
        | inl (found, g) ↦ elim (Option-cases found) [
          | inl i ↦ by_names (ground (arith, f, g, i))
          | inr (r, i) ↦ ground (arith, f, g, i, one)
        ]
      ]
    ]
