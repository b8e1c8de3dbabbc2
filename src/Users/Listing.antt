-- ===== src/Users/Listing.antt =====
-- users/users.go: the keys of the index by a test of their results. The loops go through the documents in the order of the iterator.
use keys.Common.{
  ℕ, suc, List, [], ◌∷◌, Option, none, some, Bool, true, false, not, ◌&&◌, ◌||◌, Str, str_eq,
  if◌then◌else◌, Result, ok, err, ◌>>=◌, map_err,
}
use keys.Common.Int.{ℤ, int_ltb}
use keys.Tsutil.{Time, is_zero, parse_millis, time_sub}
use keys.Dstore.Document.{Document}
use keys.Dstore.Options.{ListOption}
use keys.Dstore.Mem.{Mem}
use keys.Dstore.Mem.Listing.{document_iterator}
use keys.User.Result.{UserResult}
use keys.User.Services.{Status}
use keys.Users.{KeyJson, Error, store_error, nil_user, kid_index, key_document_from}

-- `keyDoc.Result.User.KID`.
unfoldable pub user_kid : UserResult → Result Error Str
user_kid r = elim r.user [ none ↦ err nil_user | some u ↦ ok u.kid ]

-- Whether a result has not been checked for `dt`, at two readings of the clock: one for the age of
-- the last success, one for that of the last check.
unfoldable pub is_expired_result : UserResult → ℤ → ℤ → Time → Time → Bool
is_expired_result r dt max_age verify_now check_now =
    let ts = parse_millis r.timestamp in
    let vts = parse_millis r.verified_at in
    if not (is_zero vts) && int_ltb max_age (time_sub verify_now vts)
    then false
    else is_zero ts || int_ltb dt (time_sub check_now ts)

-- The documents of a collection, as the iterator gives them.
unfoldable pub iterated : Mem → Str → List ListOption → Result Error (List Document)
iterated m parent opts = do
  iter ← map_err store_error (document_iterator m parent opts)
  ok iter.docs

module _ (j : KeyJson) (decode : Str → Option Str) where
  -- The loops of `Status`, `Expired` and `KIDs`, with the test of each on the documents from the
  -- number `i` on.
  unfoldable pub kids_where : (ℕ → UserResult → Bool) → ℕ → List Document → Result Error (List Str)
  kids_where test i [] = ok []
  kids_where test i (doc ∷ docs) =
      let rest = kids_where test (suc i) docs in
      do
        d ← key_document_from j decode doc
        elim d.result [
          | none ↦ rest
          | some r ↦ if test i r then (do kid ← user_kid r; kids ← rest; ok (kid ∷ kids)) else rest
        ]

  -- `u.Status(st)`.
  unfoldable pub kids_with_status : Mem → Status → Result Error (List Str)
  kids_with_status m st = do
    docs ← iterated m kid_index []
    kids_where (λ _ r. str_eq r.status st) 0 docs

  -- `u.Expired(dt, maxAge)`, where `now i` are the readings of the clock for the document `i`.
  unfoldable pub expired : Mem → ℤ → ℤ → (ℕ → Time × Time) → Result Error (List Str)
  expired m dt max_age now = do
    docs ← iterated m kid_index []
    kids_where (λ i r. is_expired_result r dt max_age (now i).0 (now i).1) 0 docs

  -- `u.KIDs()`.
  unfoldable pub indexed_kids : Mem → Result Error (List Str)
  indexed_kids m = do docs ← iterated m kid_index []; kids_where (λ _ _. true) 0 docs
