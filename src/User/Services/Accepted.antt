-- ===== src/User/Services/Accepted.antt =====
-- user/services: what each service's check has found when it accepts an answer.
use keys.Common.{
  List, [], ◌∷◌, Option, none, some, Bool, true, false, Str, str_eq, Result, ok, err, Result-cases,
  Option-cases, Bool-cases, ◌≡◌, inl, inr, refl, arith,
}
use keys.Common.Int.{ℤ, pos}
use keys.User.User.{User, verify_user}
use keys.User.Validate.{Service, twitter, github, reddit, https, echo, normalize_name}
use keys.User.Services.{
  Gist, Status, status_ok, Error, Answer, Verified, Requester, World, or_status, find_author,
  check_status, find_verify, verify_content, github_service, twitter_service, reddit_content,
  reddit_service, https_service, echo_service, keyspub_service, proxy_service, requester_of,
}

-- What `FindVerify` returns without an error is a message that the user's key has signed.
module _ (w : World) where
  abbrev pub Accepts : User → Str → Type 0
  Accepts usr msg = verify_user w.base62 w.crypto w.unmarshal usr msg ≡ ok tt

  find_verify-Accepts :
      (usr : User) (b s : Str)
      → (find_verify w usr b).1 ≡ ok s
      → ((find_verify w usr b).0 ≡ status_ok) × Accepts usr s
  unfolding find_verify
  find_verify-Accepts usr b s h = ground arith

  -- Where an answer has a value, its status is `ok`, and its statement one that the user's key has
  -- signed.
  abbrev pub IsAccepted : User → Answer Verified → Type 0
  IsAccepted usr a = (v : Verified) → a.1 ≡ ok v → (a.0 ≡ status_ok) × Accepts usr v.statement

  verify_content-IsAccepted :
      (timestamp : ℤ) (proxied : Bool) (b : Str) (usr : User)
      → IsAccepted usr (verify_content w timestamp proxied b usr)
  unfolding verify_content
  verify_content-IsAccepted timestamp proxied b usr v h =
      elim (Result-cases (find_verify w usr b).1) [
        | inr (e, f) ↦ ground (arith, f)
        | inl (s, f) ↦
            (let (good, accepted) = find_verify-Accepts usr b s f in
              let same : s ≡ v.statement = ground (arith, f) in
              (rw (verify_content, f) good, rw (← same) accepted))
      ]

  or_status-IsAccepted :
      {A : Type 0} (usr : User) (status : Status) (r : Result Error A) (next : A → Answer Verified)
      → ((a : A) → r ≡ ok a → IsAccepted usr (next a))
      → IsAccepted usr (or_status status r next)
  or_status-IsAccepted usr status (ok a) next h = h a refl
  or_status-IsAccepted usr status (err e) next h = λ v k. ground arith

  -- A check of a service that accepts an answer.
  abbrev pub IsSoundCheck : Requester → Type 0
  IsSoundCheck r = (b : Str) (usr : User) → IsAccepted usr (r.verify b usr)

  github_service-IsSoundCheck : IsSoundCheck (github_service w)
  unfolding github_service
  github_service-IsSoundCheck b usr v h = elim (Option-cases (w.answers.gist_of b)) [
    | inl e ↦ ground (arith, e)
    | inr (gist, e) ↦ elim (Bool-cases (str_eq (normalize_name github gist.login) usr.name)) [
      | inr f ↦ ground (arith, e, f)
      | inl f ↦ files gist e f gist.files refl
    ]
  ]
    where
      files :
          (gist : Gist)
          → w.answers.gist_of b ≡ some gist
          → str_eq (normalize_name github gist.login) usr.name ≡ true
          → (fs : List (Option Str)) → gist.files ≡ fs
          → (((github_service w).verify b usr).0 ≡ status_ok) × Accepts usr v.statement
      files gist e f [] g = ground (arith, e, f, g)
      files gist e f (none ∷ fs) g = ground (arith, e, f, g)
      files gist e f (some content ∷ fs) g =
          rw (github_service, e, f, g)
            (verify_content-IsAccepted (pos 0) false content usr v (ground (arith, e, f, g)))

  twitter_service-IsSoundCheck : (token : Str) → IsSoundCheck (twitter_service w token)
  unfolding twitter_service
  twitter_service-IsSoundCheck token b usr v h = elim (Option-cases (w.answers.tweet_of b)) [
    | inl e ↦ ground (arith, e)
    | inr (tweet, e) ↦
        elim (Result-cases (find_author tweet.author_id usr.name false tweet.tweet_users)) [
          | inr (x, f) ↦ ground (arith, e, f)
          | inl (found, f) ↦ elim (Bool-cases found) [
            | inr g ↦ ground (arith, e, f, g)
            | inl g ↦
                rw (twitter_service, e, f, g)
                  (verify_content-IsAccepted (pos 0) false tweet.text usr v
                    (ground (arith, e, f, g)))
          ]
        ]
  ]

  reddit_service-IsSoundCheck : IsSoundCheck (reddit_service w)
  unfolding reddit_service
  reddit_service-IsSoundCheck b usr =
      or_status-IsAccepted usr _ (reddit_content w usr.name b) _
        λ msg _. verify_content-IsAccepted (pos 0) false msg usr

  https_service-IsSoundCheck : IsSoundCheck (https_service w)
  unfolding https_service
  https_service-IsSoundCheck b usr = verify_content-IsAccepted (pos 0) false b usr

  echo_service-IsSoundCheck : IsSoundCheck (echo_service w)
  unfolding echo_service
  echo_service-IsSoundCheck b usr = verify_content-IsAccepted (pos 0) false b usr

  keyspub_service-IsSoundCheck : IsSoundCheck (keyspub_service w)
  unfolding keyspub_service
  keyspub_service-IsSoundCheck b usr v h = elim (Option-cases (w.answers.status_of b)) [
    | inl e ↦ ground (arith, e)
    | inr (us, e) ↦ elim (Result-cases (check_status us usr)) [
      | inr (x, f) ↦ ground (arith, e, f)
      | inl (_, f) ↦
          rw (keyspub_service, e, f)
            (verify_content-IsAccepted us.verified_at true us.statement usr v
              (ground (arith, e, f)))
    ]
  ]

  proxy_service-IsSoundCheck : IsSoundCheck (proxy_service w)
  unfolding proxy_service
  proxy_service-IsSoundCheck b usr = verify_content-IsAccepted (pos 0) true b usr

  -- Where the check of any of the five services accepts an answer, it gives the status `ok`, and a
  -- statement that `Verify` of the user accepts.
  pub requester_of-IsSoundCheck :
      (token : Str) (service : Service) → IsSoundCheck (requester_of w token service)
  unfolding requester_of
  requester_of-IsSoundCheck token twitter = twitter_service-IsSoundCheck token
  requester_of-IsSoundCheck token github = github_service-IsSoundCheck
  requester_of-IsSoundCheck token reddit = reddit_service-IsSoundCheck
  requester_of-IsSoundCheck token https = https_service-IsSoundCheck
  requester_of-IsSoundCheck token echo = echo_service-IsSoundCheck
