-- ===== src/User/Result.antt =====
-- user/result.go and user/services/verify.go: the result of a check of a user, and how a check of
-- the service brings it up to date.
use keys.Common.{
  [], Option, none, some, Bool, false, not, ◌||◌, Str, str_eq, if◌then◌else◌, ok, err,
}
use keys.Common.Int.{ℤ, pos, int_eq, int_ltb}
use keys.Tsutil.{Time, is_zero, millis_of, parse_millis, time_sub}
use keys.User.User.{User}
use keys.User.Services.{
  Status, status_ok, status_resource_not_found, Error, resource_not_found, Client, Answer, Verified,
  Requester,
}

-- `failure` is the error whose text the code keeps, and `none` the empty text; `user` is `none`
-- where the pointer is nil.
pub record UserResult : Type 0 where
  pub failure : Option Error
  pub status : Status
  pub timestamp : ℤ
  pub user : Option User
  pub statement : Str
  pub proxied : Bool
  pub verified_at : ℤ

-- `&user.Result{}`.
unfoldable pub empty_result : UserResult
empty_result = record {
  failure = none;
  status = [];
  timestamp = pos 0;
  user = none;
  statement = [];
  proxied = false;
  verified_at = pos 0;
}

-- Whether milliseconds are 0, or more than `dt` before `now`.
unfoldable pub is_expired : ℤ → Time → ℤ → Bool
is_expired millis now dt =
    let ts = parse_millis millis in is_zero ts || int_ltb dt (time_sub now ts)

-- `r.IsTimestampExpired(now, dt)`.
unfoldable pub is_timestamp_expired : UserResult → Time → ℤ → Bool
is_timestamp_expired r now dt = is_expired r.timestamp now dt

-- `r.IsVerifyExpired(now, dt)`.
unfoldable pub is_verify_expired : UserResult → Time → ℤ → Bool
is_verify_expired r now dt = is_expired r.verified_at now dt

-- `requestVerify(service, client, usr)`; `none` is nil.
unfoldable pub request_verify : Requester → Client → User → Answer (Option Verified)
request_verify service client usr = elim (service.request client usr).1 [
  | err e ↦ ((service.request client usr).0, err e)
  | ok found ↦
      if not (str_eq (service.request client usr).0 status_ok)
      then ((service.request client usr).0, ok none)
      else elim found [
        | none ↦ (status_resource_not_found, err resource_not_found)
        | some b ↦ elim (service.verify b usr).1 [
          | err e ↦ ((service.verify b usr).0, err e)
          | ok v ↦ ((service.verify b usr).0, ok (some v))
        ]
      ]
]

-- What `UpdateResult` writes of an answer; `none` is the panic on a nil `*Verified`.
unfoldable pub updated : UserResult → Time → Answer (Option Verified) → Option UserResult
updated r now (status, err e) =
    some (record r { failure = some e; status = status; timestamp = millis_of now; statement = [] })
updated r now (status, ok none) = none
updated r now (status, ok (some v)) = some (record r {
  failure = none;
  status = status;
  timestamp = millis_of now;
  statement = v.statement;
  proxied = v.proxied;
  verified_at = if int_eq v.timestamp (pos 0) then millis_of now else v.timestamp;
})

-- `UpdateResult(service, result, client, now)`; `none` is also the panic on a result without user.
unfoldable pub update_result : Requester → UserResult → Client → Time → Option UserResult
update_result service r client now = elim r.user [
  | none ↦ none
  | some usr ↦ updated r now (request_verify service client usr)
]

-- `Verify(service, client, usr)` at the system's time, and `RequestVerify` of `Users` at the clock's.
unfoldable pub verify_result : Requester → Client → User → Time → Option UserResult
unfolding empty_result
verify_result service client usr now =
    update_result service (record empty_result { user = some usr }) client now
