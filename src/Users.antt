-- ===== src/Users.antt =====
-- users/users.go: the index of users of a document store, which is the memory store here, and how a
-- key's result is indexed. The JSON of a key's document and the decoding of a value that is a text
-- are parameters, and so are the readings of the clock.
pub mod Update
pub mod Listing
pub mod Entries
pub mod UserEntries
pub mod Indexed
pub mod Replaced
pub mod Checked
pub mod Failed
mod Examples
pub mod Search
use keys.Common.{
  ℕ, ◌*◌, List, [], ◌∷◌, ◌++◌, Option, none, some, Bool, true, false, not, ◌&&◌, ◌||◌, ◌==◌, Str,
  str_eq, codes, if◌then◌else◌, Result, ok, err, ◌>>=◌, ◌>>◌, fail_if, map_err,
}
use keys.Common.Int.{ℤ, pos, int_eq, int_ltb}
use keys.Tsutil.{Time, parse_millis, time_sub}
use keys.Dstore.Path.{path_of}
use keys.Dstore.Document.{Document, of_data, data_of}
use keys.Dstore.Mem
use keys.Dstore.Mem.{Mem, set_document, delete}
use keys.Sigchains
use keys.User.User
use keys.User.User.{User, user_id}
use keys.User.Services
use keys.User.Services.{status_ok, status_conn_failure}
use keys.User.Result.{UserResult}

pub record KeyDocument : Type 0 where
  pub doc_kid : Str
  pub result : Option UserResult

-- `json.Marshal` and `json.Unmarshal` of a key's document; `none` is an error.
pub record KeyJson : Type 0 where
  pub marshal : KeyDocument → Option Str
  pub unmarshal : Str → Option KeyDocument

-- `nil_user` is the panic on a result without a user, and `nil_answer` that on a missing answer.
pub data Error : Type 0 where
  store_error : Mem.Error → Error
  chain_error : Sigchains.Error → Error
  user_error : User.Error → Error
  service_error : Services.Error → Error
  empty_value marshal_failed unmarshal_failed kid_mismatch service_not_found : Error
  nil_user nil_answer invalid_type negative_limit : Error

-- The collections of the index.
abbrev pub kid_index : Str
kid_index = codes "kid"

abbrev pub user_index : Str
user_index = codes "user"

abbrev pub search_index : Str
search_index = codes "search"

abbrev pub service_index : Str
service_index = codes "service"

-- `indexUserKey(service, name)`.
unfoldable pub index_user_key : Str → Str → Str
index_user_key service name = name ++ codes "@" ++ service

-- `indexServiceKey(service, name)`.
unfoldable pub index_service_key : Str → Str → Str
index_service_key service name = service ++ codes "@" ++ name

-- The next step on the store that a step without an error has left.
unfoldable pub and_then :
    Result Error Unit × Mem → (Mem → Result Error Unit × Mem) → Result Error Unit × Mem
and_then (err e, m) next = (err e, m)
and_then (ok _, m) next = next m

-- `u.ds.Set(ctx, dstore.Path(index, val), dstore.Data(data))`.
unfoldable pub set_entry : Str → Str → Str → Mem → Result Error Unit × Mem
set_entry index val data_ m =
    let s = set_document m (path_of (index ∷ val ∷ [])) (some (of_data data_)) [] in
    (map_err store_error s.0, s.1)

-- `u.ds.Delete(ctx, dstore.Path(index, val))`, which does not fail.
unfoldable pub delete_entry : Str → Str → Mem → Mem
delete_entry index val m = (delete m (path_of (index ∷ val ∷ []))).1

-- `u.indexUser(user, data, skipSearch)`.
unfoldable pub index_user : User → Str → Bool → Mem → Result Error Unit × Mem
index_user user data_ skip_search m =
    and_then (set_entry user_index (index_user_key user.service user.name) data_ m) λ m1.
      and_then (set_entry service_index (index_service_key user.service user.name) data_ m1) λ m2.
        if skip_search
        then (ok tt, m2)
        else set_entry search_index (index_user_key user.service user.name) data_ m2

-- `u.unindexUser(user)`.
unfoldable pub unindex_user : User → Mem → Mem
unindex_user user m = delete_entry search_index (index_user_key user.service user.name) (
    delete_entry service_index (index_service_key user.service user.name)
      (delete_entry user_index (index_user_key user.service user.name) m))

-- `isNewResultDifferent(new, old)`.
unfoldable pub is_new_result_different : Option UserResult → Option UserResult → Bool
is_new_result_different new none = false
is_new_result_different none (some old) = true
is_new_result_different (some new) (some old) = elim new.user [
  | none ↦ true
  | some u ↦ elim old.user [ none ↦ false | some v ↦ not (str_eq (user_id u) (user_id v)) ]
]

-- `unindexUser(result.User)`, with the panic on a nil user.
unfoldable pub unindex_result : UserResult → Mem → Result Error Unit × Mem
unindex_result r m = elim r.user [ none ↦ (err nil_user, m) | some u ↦ (ok tt, unindex_user u m) ]

-- `Remove existing if different.`
unfoldable pub remove_existing :
    Option UserResult → Option KeyDocument → Mem → Result Error Unit × Mem
remove_existing new none m = (ok tt, m)
remove_existing new (some existing) m =
    if is_new_result_different new existing.result
    then elim existing.result [ none ↦ (err nil_user, m) | some old ↦ unindex_result old m ]
    else (ok tt, m)

-- `time.Hour * 24 * 2` in nanoseconds.
abbrev pub two_days : ℤ
two_days = pos (2 * 24 * 60 * 60 * 1_000_000_000)

-- Whether a result is indexed by its user.
unfoldable pub is_indexed : UserResult → Time → Bool
is_indexed r now =
    if int_eq r.verified_at (pos 0)
    then false
    else if str_eq r.status status_ok
    then true
    else str_eq r.status status_conn_failure
      && int_ltb (time_sub now (parse_millis r.verified_at)) two_days

-- `Index for user`.
unfoldable pub index_result : Option UserResult → Str → Time → Mem → Result Error Unit × Mem
index_result none data_ now m = (ok tt, m)
index_result (some r) data_ now m =
    if is_indexed r now
    then elim r.user [
      | none ↦ (err nil_user, m)
      | some u ↦ index_user u data_ (str_eq u.service (codes "echo")) m
    ]
    else unindex_result r m

module _ (j : KeyJson) (decode : Str → Option Str) where
  -- `json.Unmarshal(doc.Data(), &keyDoc)`.
  unfoldable pub key_document_from : Document → Result Error KeyDocument
  key_document_from doc =
      elim (j.unmarshal (elim (data_of decode doc) [ none ↦ [] | some b ↦ b ])) [
        | none ↦ err unmarshal_failed
        | some d ↦ ok d
      ]

  -- `u.get(index, val)`; `none` is nil.
  unfoldable pub get_entry : Mem → Str → Str → Result Error (Option KeyDocument)
  get_entry m index val = do
    fail_if (str_eq val []) empty_value
    found ← map_err store_error (Mem.get m (path_of (index ∷ val ∷ [])))
    elim found [ none ↦ ok none | some doc ↦ do d ← key_document_from doc; ok (some d) ]

  -- `u.index(keyDoc)` past the removal of what there was.
  unfoldable pub write_index : KeyDocument → Time → Mem → Result Error Unit × Mem
  write_index key_doc now m = elim (j.marshal key_doc) [
    | none ↦ (err marshal_failed, m)
    | some b ↦
        and_then (set_entry kid_index key_doc.doc_kid b m)
          λ m1. index_result key_doc.result b now m1
  ]

  -- `u.index(keyDoc)`.
  unfoldable pub index : KeyDocument → Time → Mem → Result Error Unit × Mem
  index key_doc now m = elim (get_entry m kid_index key_doc.doc_kid) [
    | err e ↦ (err e, m)
    | ok existing ↦
        and_then (remove_existing key_doc.result existing m) λ m1. write_index key_doc now m1
  ]

  -- The result in a document that was found.
  unfoldable pub result_of : Result Error (Option KeyDocument) → Result Error (Option UserResult)
  result_of found = do d ← found; elim d [ none ↦ ok none | some key_doc ↦ ok key_doc.result ]

  -- `u.Get(kid)`.
  unfoldable pub get : Mem → Str → Result Error (Option UserResult)
  get m kid = result_of (get_entry m kid_index kid)

  -- `u.User(user)`, by name@service.
  unfoldable pub lookup_user : Mem → Str → Result Error (Option UserResult)
  lookup_user m user = result_of (get_entry m user_index user)
