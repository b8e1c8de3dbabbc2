-- ===== src/User/Services/Requested.antt =====
-- user/services: a request that gives no error has the status `ok`, so that the update of a result
-- never reads a missing answer.
use keys.Common.{
  List, [], Option, none, some, Str, str_eq, str_eq_self, ap, ◌∙◌, subst, ◌⊎◌, true, Result, ok,
  err, Result-cases, ◌≡◌, inl, inr, refl, arith, map_err, Option-cases,
}
use keys.Tsutil.{Time, millis_of}
use keys.User.User.{User}
use keys.User.Validate.{Service, twitter, github, reddit, https, echo}
use keys.User.Validate.Url.{github_api_url, twitter_api_url, reddit_api_url}
use keys.User.Services.{
  Status, status_ok, Error, Header, Client, Answer, Verified, Requester, World, or_status,
  address_error, request_url, github_service, twitter_service, reddit_headers, reddit_service,
  https_service, echo_message, echo_service, requester_of,
}
use keys.User.Services.Accepted.{Accepts, IsSoundCheck}
use keys.User.Result.{UserResult, request_verify, updated, update_result}

-- A value comes with the status `ok`.
abbrev pub IsOkWithValue : {A : Type 0} → Answer A → Type 0
IsOkWithValue {A} a = (x : A) → a.1 ≡ ok x → a.0 ≡ status_ok

or_status-IsOkWithValue :
    {A B : Type 0} (status : Status) (r : Result Error A) (next : A → Answer B)
    → ((a : A) → IsOkWithValue (next a))
    → IsOkWithValue (or_status status r next)
or_status-IsOkWithValue status (ok a) next h = h a
or_status-IsOkWithValue status (err e) next h = λ x k. ground arith

request_url-IsOkWithValue :
    (client : Client) (urs : Str) (headers : List Header)
    → IsOkWithValue (request_url client urs headers)
unfolding request_url
request_url-IsOkWithValue client urs headers b h = ground arith

-- A service whose requests give a value only with the status `ok`.
abbrev pub IsSoundRequest : Requester → Type 0
IsSoundRequest r = (client : Client) (usr : User) → IsOkWithValue (r.request client usr)

pub requester_of-IsSoundRequest :
    (w : World) (token : Str) (service : Service) → IsSoundRequest (requester_of w token service)
unfolding requester_of twitter_service github_service reddit_service https_service echo_service
requester_of-IsSoundRequest w token twitter client usr =
    or_status-IsOkWithValue _ (map_err address_error (twitter_api_url w.urls usr.name usr.url)) _
      λ url. request_url-IsOkWithValue client url _
requester_of-IsSoundRequest w token github client usr =
    or_status-IsOkWithValue _ (map_err address_error (github_api_url w.urls usr.name usr.url)) _
      λ url. request_url-IsOkWithValue client url _
requester_of-IsSoundRequest w token reddit client usr =
    or_status-IsOkWithValue _ (map_err address_error (reddit_api_url w.urls usr.name usr.url)) _
      λ url.
        or_status-IsOkWithValue _ (reddit_headers w url) _
          λ headers. request_url-IsOkWithValue client url headers
requester_of-IsSoundRequest w token https client usr = request_url-IsOkWithValue client usr.url _
requester_of-IsSoundRequest w token echo client usr =
    or_status-IsOkWithValue _ (echo_message w usr) _ λ msg x h. refl

-- What an update does to a result: either the status is `ok`, with a statement that the key of the
-- user has signed, or there is an error, no statement, and the time of the last success is kept.
pub record IsVerified (w : World) (usr : User) (after : UserResult) : Type 0 where
  pub no_failure : after.failure ≡ none
  pub good : after.status ≡ status_ok
  pub accepted : Accepts w usr after.statement

pub record IsFailed (before after : UserResult) : Type 0 where
  pub failed : (e : Error) × (after.failure ≡ some e)
  pub no_statement : after.statement ≡ []
  pub kept : after.verified_at ≡ before.verified_at

-- What a check of a service with both properties comes to: an error, or a statement that the key of
-- the user has signed and the status `ok`.
module _ (w : World) (r : Requester) (asks : IsSoundRequest r) (checks : IsSoundCheck w r) where
  request_verify_lem :
      (client : Client) (usr : User) (found : Option Verified)
      → (request_verify r client usr).1 ≡ ok found
      → (v : Verified) × (found ≡ some v)
        × ((request_verify r client usr).0 ≡ status_ok)
        × Accepts w usr v.statement
  unfolding request_verify
  request_verify_lem client usr found h = elim (Result-cases (r.request client usr).1) [
    | inr (e, f) ↦ ground (arith, f)
    | inl (body, f) ↦
        (let good = asks client usr body f in
          let test : str_eq (r.request client usr).0 status_ok ≡ true =
            ap (λ s. str_eq s status_ok) good ∙ str_eq_self status_ok in
          elim (Option-cases body) [
            | inl g ↦ ground (arith, f, test, g)
            | inr (b, g) ↦ elim (Result-cases (r.verify b usr).1) [
              | inr (e, i) ↦ ground (arith, f, test, g, i)
              | inl (v, i) ↦
                  (let (fine, accepted) = checks b usr v i in
                    (
                      v,
                      ground (arith, f, test, g, i),
                      rw (request_verify, f, test, g, i) fine,
                      accepted,
                    ))
            ]
          ])
  ]

  updated_lem :
      (before : UserResult) (now : Time) (usr : User) (a : Answer (Option Verified))
      → before.user ≡ some usr
      → ((found : Option Verified)
          → a.1 ≡ ok found
          → (v : Verified) × (found ≡ some v) × (a.0 ≡ status_ok) × Accepts w usr v.statement)
      → (after : UserResult) × (updated before now a ≡ some after)
        × (after.user ≡ some usr)
        × (after.timestamp ≡ millis_of now)
        × (IsVerified w usr after ⊎ IsFailed before after)
  unfolding updated
  updated_lem before now usr (status, err e) h good =
      (_, refl, h, refl, inr (record { failed = (e, refl); no_statement = refl; kept = refl }))
  updated_lem before now usr (status, ok none) h good =
      let (v, there, _, _) = good none refl in ground (arith, there)
  updated_lem before now usr (status, ok (some v)) h good =
      let (u, there, fine, accepted) = good (some v) refl in
      let same : u ≡ v = ground (arith, there) in
      (
        _,
        refl,
        h,
        refl,
        inl (record {
          no_failure = refl;
          good = fine;
          accepted = subst (λ t. Accepts w usr t.statement) same accepted;
        }),
      )

  for_user : UserResult → Client → Time → Option User → Option UserResult
  for_user before client now none = none
  for_user before client now (some u) = updated before now (request_verify r client u)

  -- `UpdateResult` with a service that gives a body only with the status `ok`, and accepts only
  -- statements that `Verify` accepts, reads no missing answer. It keeps the user and sets the time
  -- of the check. Either there is then no error, with the status `ok` and a statement that `Verify`
  -- accepts, or there is an error, no statement, and the time of the last success as before.
  pub update_result_lem :
      (before : UserResult) (client : Client) (now : Time) (usr : User)
      → before.user ≡ some usr
      → (after : UserResult) × (update_result r before client now ≡ some after)
        × (after.user ≡ some usr)
        × (after.timestamp ≡ millis_of now)
        × (IsVerified w usr after ⊎ IsFailed before after)
  unfolding update_result for_user
  update_result_lem before client now usr h =
      let step : update_result r before client now
          ≡ updated before now (request_verify r client usr) =
        ap (for_user before client now) h in
      let (after, e, same, at, outcome) =
        updated_lem before now usr (request_verify r client usr) h
          (request_verify_lem client usr) in
      (after, step ∙ e, same, at, outcome)
