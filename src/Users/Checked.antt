-- ===== src/Users/Checked.antt =====
-- users/users.go: what the check of a sigchain's user comes to.
use keys.Common.{
  Option, none, some, true, Str, str_eq, str_eq_iff, ok, Result-cases, Option-cases, Bool-cases,
  ◌≡◌, ◌⊎◌, inl, inr, refl, ap, arith, ◌∙◌,
}
use keys.Tsutil.{millis_of}
use keys.Dstore.Mem.{Mem}
use keys.Sigchain.{Sigchain}
use keys.User.User.{User, find_in_sigchain}
use keys.User.Validate.{lookup_service}
use keys.User.Services.{Requester, requester_of}
use keys.User.Services.Accepted.{IsSoundCheck, requester_of-IsSoundCheck}
use keys.User.Services.Requested.{
  IsSoundRequest, requester_of-IsSoundRequest, IsVerified, IsFailed, update_result_lem,
}
use keys.User.Result.{UserResult, empty_result}
use keys.Users.{KeyJson, get}
use keys.Users.Update.{Setting, start, lookup_requester, check_user, check_sigchain}

-- A service that a caller chooses behaves as the services of the package do.
abbrev pub IsSoundChoice : Setting → Type 0
IsSoundChoice e =
    (usr : User) (r : Requester) → e.chosen usr ≡ some r → IsSoundRequest r × IsSoundCheck e.world r

lookup_requester-IsSound :
    (e : Setting) (usr : User) (r : Requester)
    → IsSoundChoice e
    → lookup_requester e.world e.token e.chosen usr ≡ ok r
    → IsSoundRequest r × IsSoundCheck e.world r
unfolding lookup_requester
lookup_requester-IsSound e usr r sound h = elim (Option-cases (e.chosen usr)) [
  | inr (s, f) ↦ (let same : s ≡ r = ground (arith, f) in sound usr r (f ∙ ap some same))
  | inl f ↦ elim (Result-cases (lookup_service usr.service)) [
    | inr (x, g) ↦ ground (arith, f, g)
    | inl (s, g) ↦
        (let same : requester_of e.world e.token s ≡ r = ground (arith, f, g) in
          rw (← same) (
            requester_of-IsSoundRequest e.world e.token s,
            requester_of-IsSoundCheck e.world e.token s,
          ))
  ]
]

user-start : (before : Option UserResult) (usr : User) → (start before usr).user ≡ some usr
unfolding start empty_result
user-start none usr = refl
user-start (some r) usr = refl

module _ (j : KeyJson) (decode : Str → Option Str) (e : Setting) (sound : IsSoundChoice e)
    (m : Mem) where
  -- What is known of a check of a user that gives a result.
  pub record IsChecked (kid : Str) (usr : User) (after : UserResult) : Type 0 where
    pub before : Option UserResult
    pub found : get j decode m kid ≡ ok before
    pub own : usr.kid ≡ kid
    pub of_user : after.user ≡ some usr
    pub at : after.timestamp ≡ millis_of e.checked_at
    pub outcome : IsVerified e.world usr after ⊎ IsFailed (start before usr) after

  check_user-IsChecked :
      (kid : Str) (usr : User) (after : UserResult)
      → check_user j decode e m kid usr ≡ ok (some after)
      → IsChecked kid usr after
  unfolding check_user
  check_user-IsChecked kid usr after h = elim (Bool-cases (str_eq usr.kid kid)) [
    | inr f ↦ ground (arith, f)
    | inl f ↦ elim (Result-cases (get j decode m kid)) [
      | inr (x, g) ↦ ground (arith, f, g)
      | inl (before, g) ↦ elim (Result-cases (lookup_requester e.world e.token e.chosen usr)) [
        | inr (x, i) ↦ ground (arith, f, g, i)
        | inl (service, i) ↦ of_service before service f g i
      ]
    ]
  ]
    where
      of_service :
          (before : Option UserResult) (service : Requester)
          → str_eq usr.kid kid ≡ true
          → get j decode m kid ≡ ok before
          → lookup_requester e.world e.token e.chosen usr ≡ ok service
          → IsChecked kid usr after
      of_service before service f g i =
          let (asks, checks) = lookup_requester-IsSound e usr service sound i in
          let (new, u, same, at, outcome) =
            update_result_lem e.world service asks checks (start before usr) e.client e.checked_at
              usr (user-start before usr) in
          let is : new ≡ after = ground (arith, f, g, i, u) in
          rw (← is) (record {
            before = before;
            found = g;
            own = (str_eq_iff usr.kid kid).0 f;
            of_user = same;
            at = at;
            outcome = outcome;
          })

  -- Where `CheckSigchain` gives a result, the chain has a valid user of its own key, the result is
  -- of that user and of that time, and it either has the status `ok` with a statement that `Verify`
  -- accepts, or an error, no statement, and the time of the last success of the result before. A
  -- service that the caller chooses is to behave as those of the package.
  pub check_sigchain-IsChecked :
      (sc : Sigchain) (after : UserResult)
      → check_sigchain j decode e m sc ≡ ok (some after)
      → (usr : User) × (find_in_sigchain e.world.urls e.world.unmarshal sc ≡ ok (some usr))
        × IsChecked sc.kid usr after
  unfolding check_sigchain
  check_sigchain-IsChecked sc after h =
      elim (Result-cases (find_in_sigchain e.world.urls e.world.unmarshal sc)) [
        | inr (x, f) ↦ ground (arith, f)
        | inl (found, f) ↦ elim (Option-cases found) [
          | inl g ↦ ground (arith, f, g)
          | inr (usr, g) ↦ (
            usr,
            f ∙ ap ok g,
            check_user-IsChecked sc.kid usr after (rw (check_sigchain, f, g) at h),
          )
        ]
      ]
