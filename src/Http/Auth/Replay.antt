-- ===== src/Http/Auth/Replay.antt =====
-- http/auth.go and http/mem.go: a request that was authorized is not authorized again.
use keys.Common.{
  ◌+◌, List, [], Option, some, false, Str, str_eq_iff, leb, if◌then◌else◌, Result, ok, err,
  Result-cases, Bool-cases, ◌≡◌, inl, inr, refl, sym, ap, arith, ◌∙◌,
}
use keys.Common.Sort.{mem}
use keys.Crypto.{Crypto}
use keys.Encoding.Saltpack.{Base62}
use keys.Http.Mem
use keys.Http.Mem.{Mem, nonce_collision, now, get, hour, nonce_check}
use keys.Http.Mem.Nonce.{nonce_check_all, nonce_check-nonce_check_all}
use keys.Http.Auth.{Urls, AuthRequest, AuthResult, nonce_error, check_request, authorize}
use keys.Http.Auth.Accepted.{authorize-IsAuthorized}

-- What `NonceCheck` accepts had no value.
nonce_check-fresh_only :
    (m : Mem) (nonce : Str) → (nonce_check m nonce).0 ≡ ok tt → (get m nonce).0 ≡ []
unfolding nonce_check
nonce_check-fresh_only m nonce h = ground (arith, str_eq_iff (get m nonce).0 [])

module _ (c : Crypto) (urls : Urls) (x : Base62) (decode64 : Str → Option Str) where
  authorize-checked :
      (m : Mem) (r : AuthRequest Mem) (result : AuthResult)
      → r.nonce_check ≡ some nonce_check
      → check_request c urls x decode64 r ≡ ok result
      → (authorize c urls x decode64 m r).0
        ≡ (elim (nonce_check m result.nonce).0 [ err e ↦ err (nonce_error e) | ok _ ↦ ok result ])
  unfolding authorize
  authorize-checked m r result k e = elim (Result-cases (nonce_check m result.nonce).0) [
    | inl (_, f) ↦ rw (authorize, e, k, f) refl
    | inr (y, f) ↦ rw (authorize, e, k, f) refl
  ]

  -- After `Authorize` has accepted a request, with `NonceCheck` of the store, and other nonces in
  -- any number were checked, a request with the same nonce that passes all other tests is refused
  -- as long as the clock stands less than an hour behind the time of the first check of the nonce,
  -- and accepted from then on.
  pub authorize-replayed :
      (m : Mem) (first second : AuthRequest Mem) (result again : AuthResult) (others : List Str)
      → first.nonce_check ≡ some nonce_check
      → second.nonce_check ≡ some nonce_check
      → (authorize c urls x decode64 m first).0 ≡ ok result
      → check_request c urls x decode64 second ≡ ok again
      → again.nonce ≡ result.nonce
      → mem result.nonce others ≡ false
      → let after = nonce_check_all (authorize c urls x decode64 m first).1 others in
        (authorize c urls x decode64 after second).0 ≡ (
          if leb ((now (get m result.nonce).1).0 + hour) (now after).0
          then ok again
          else err (nonce_error nonce_collision))
  authorize-replayed m first second result again others k l h e same apart =
      let a = authorize-IsAuthorized c urls x decode64 m first result h in
      let is : a.check ≡ nonce_check = ground (arith, a.checks_nonce, k) in
      let fresh : (nonce_check m result.nonce).0 ≡ ok tt =
        ap (λ (f : Mem → Str → Result Mem.Error Unit × Mem). (f m result.nonce).0) (sym is)
        ∙ a.fresh in
      let leaves : (authorize c urls x decode64 m first).1 ≡ (nonce_check m result.nonce).1 =
        a.leaves ∙ ap (λ (f : Mem → Str → Result Mem.Error Unit × Mem). (f m result.nonce).1) is in
      let after = nonce_check_all (nonce_check m result.nonce).1 others in
      let held =
        nonce_check-nonce_check_all m result.nonce others
          (nonce_check-fresh_only m result.nonce fresh) apart in
      let found = ap (λ k. (nonce_check after k).0) same ∙ held in
      rw leaves (
        authorize-checked after second again l e
        ∙ rw found (elim (Bool-cases (leb ((now (get m result.nonce).1).0 + hour) (now after).0)) [
          | inl over ↦ rw over refl
          | inr early ↦ rw early refl
        ]))
