-- ===== src/Users/Update.antt =====
-- users/users.go and users/services.go: how a sigchain's user is checked and indexed.
use keys.Common.{
  [], Option, none, some, not, Str, str_eq, codes, if◌then◌else◌, Result, ok, err, ◌>>=◌, ◌>>◌,
  fail_if, map_err,
}
use keys.EdX25519.{PublicKey}
use keys.Tsutil.{Time}
use keys.Dstore.Mem.{Mem}
use keys.Statement.{Statement, bytes_of}
use keys.Sigchain.{Sigchain}
use keys.Sigchains
use keys.Sigchains.{lookup_key}
use keys.User.User.{User, user_id, user_from, validate, find_in_sigchain}
use keys.User.Validate.{lookup_service}
use keys.User.Services.{Requester, Client, World, requester_of}
use keys.User.Result.{UserResult, empty_result, update_result}
use keys.Users.{
  KeyJson, Error, chain_error, user_error, service_not_found, kid_mismatch, nil_user, nil_answer,
  invalid_type, get, lookup_user, index,
}

-- `ValidateStatement(st)`.
unfoldable pub validate_statement : World → Statement → Result Error Unit
validate_statement w st = do
  fail_if (not (str_eq st.typ (codes "user"))) invalid_type
  usr ← map_err user_error (user_from w.unmarshal (bytes_of st.contents))
  map_err user_error (validate w.urls usr)

-- `LookupService(usr, opt...)`: the option's service if it gives one, or that of the name.
unfoldable pub lookup_requester :
    World → Str → (User → Option Requester) → User → Result Error Requester
lookup_requester w token chosen usr = elim (chosen usr) [
  | some r ↦ ok r
  | none ↦ elim (lookup_service usr.service) [
    | err _ ↦ err service_not_found
    | ok service ↦ ok (requester_of w token service)
  ]
]

-- What an `Update` is given: how services are asked, and the readings of the clock for the check and
-- for the index.
pub record Setting : Type 0 where
  pub world : World
  pub token : Str
  pub chosen : User → Option Requester
  pub client : Client
  pub checked_at : Time
  pub indexed_at : Time

-- `u.RequestVerify(service, usr)`.
unfoldable pub request_verify_user : Setting → Requester → User → Option UserResult
unfolding empty_result
request_verify_user e service usr =
    update_result service (record empty_result { user = some usr }) e.client e.checked_at

-- The result that `CheckSigchain` starts from: the one that was found or a new one, of the user.
unfoldable pub start : Option UserResult → User → UserResult
unfolding empty_result
start none usr = record empty_result { user = some usr }
start (some r) usr = record r { user = some usr }

module _ (j : KeyJson) (decode : Str → Option Str) (e : Setting) where
  -- The check of a user that was found in the chain of `kid`.
  unfoldable pub check_user : Mem → Str → User → Result Error (Option UserResult)
  check_user m kid usr = do
    fail_if (not (str_eq usr.kid kid)) kid_mismatch
    found ← get j decode m kid
    service ← lookup_requester e.world e.token e.chosen usr
    elim (update_result service (start found usr) e.client e.checked_at) [
      | none ↦ err nil_answer
      | some after ↦ ok (some after)
    ]

  -- `u.CheckSigchain(sc)`; `none` is nil.
  unfoldable pub check_sigchain : Mem → Sigchain → Result Error (Option UserResult)
  check_sigchain m sc = do
    found ← map_err user_error (find_in_sigchain e.world.urls e.world.unmarshal sc)
    elim found [ none ↦ ok none | some usr ↦ check_user m sc.kid usr ]

  -- `u.Update(kid)` of the loaded chain.
  unfoldable pub update_loaded : Mem → Str → Sigchain → Result Error (Option UserResult) × Mem
  update_loaded m kid sc = elim (check_sigchain m sc) [
    | err x ↦ (err x, m)
    | ok result ↦
        (let written = index j decode (record { doc_kid = kid; result = result }) e.indexed_at m in
          elim written.0 [ err x ↦ (err x, written.1) | ok _ ↦ (ok result, written.1) ])
  ]

  -- `u.CheckForExisting(sc)`; the empty text is no key.
  unfoldable pub check_for_existing : Mem → Sigchain → Result Error Str
  check_for_existing m sc = do
    found ← map_err user_error (find_in_sigchain e.world.urls e.world.unmarshal sc)
    elim found [
      | none ↦ ok []
      | some usr ↦ do
        res ← lookup_user j decode m (user_id usr)
        elim res [
          | none ↦ ok []
          | some r ↦ elim r.user [
            | none ↦ err nil_user
            | some v ↦ ok (if not (str_eq v.kid sc.kid) then v.kid else [])
          ]
        ]
    ]

  module _ (statement_of : Str → Option Statement) (x25519_id : PublicKey → Str) where
    -- `u.Update(kid)`.
    unfoldable pub update : Mem → Str → Result Error (Option UserResult) × Mem
    update m kid = elim (Sigchains.load e.world.crypto statement_of decode x25519_id m kid) [
      | err x ↦ (err (chain_error x), m)
      | ok sc ↦ update_loaded m kid sc
    ]

    -- `u.Find(kid)`: the result of the key, or of the related key.
    unfoldable pub find : Mem → Str → Result Error (Option UserResult)
    find m kid = do
      res ← get j decode m kid
      elim res [
        | some r ↦ ok (some r)
        | none ↦ do
          rkid ← map_err chain_error (lookup_key e.world.crypto statement_of decode x25519_id m kid)
          if str_eq rkid [] then ok none else get j decode m rkid
      ]
