-- ===== src/Users/Failed.antt =====
-- users/users.go: what an update whose check failed on the connection leaves in the index of users.
use keys.Common.{
  ◌&&◌, Option, none, some, Bool, false, not, Str, str_eq, str_eq_self, if◌then◌else◌, ok,
  Result-cases, ◌≡◌, inl, inr, refl, sym, ap, ◌∙◌, arith,
}
use keys.Common.Int.{pos, int_eq, int_ltb}
use keys.Tsutil.{Time, parse_millis, time_sub}
use keys.Dstore.Mem.{Mem}
use keys.Sigchain.{Sigchain}
use keys.User.User.{User, find_in_sigchain, user_id}
use keys.User.Services.{status_ok, status_conn_failure}
use keys.User.Result.{UserResult}
use keys.Users.{KeyDocument, KeyJson, get, index, is_indexed, two_days, lookup_user}
use keys.Users.Checked.{IsSoundChoice, check_sigchain-IsChecked}
use keys.Dstore.Path.Laws.{IsComponent}
use keys.Users.Indexed.{lookup_user-index}
use keys.Users.Update.{Setting, start, check_sigchain, update_loaded}
use keys.Users.UserEntries.{IsIndexable}

-- Whether a result had been verified less than two days before.
abbrev pub was_verified_recently : UserResult → Time → Bool
was_verified_recently old now =
    not (int_eq old.verified_at (pos 0))
    && int_ltb (time_sub now (parse_millis old.verified_at)) two_days

ok-ne-failure : str_eq status_conn_failure status_ok ≡ false
unfolding str_eq
ok-ne-failure = refl

is_indexed-conn_failure :
    (r : UserResult) (now : Time)
    → r.status ≡ status_conn_failure
    → is_indexed r now ≡ was_verified_recently r now
unfolding is_indexed
is_indexed-conn_failure r now h =
    rw (is_indexed, h, ok-ne-failure, str_eq_self status_conn_failure) (ground arith)

module _ (j : KeyJson) (decode : Str → Option Str) (e : Setting) (sound : IsSoundChoice e)
    (m : Mem) where
  -- An update that succeeds has checked the chain, and has indexed the result of the check.
  update_loaded-eq-ok :
      (kid : Str) (sc : Sigchain) (r : Option UserResult)
      → (update_loaded j decode e m kid sc).0 ≡ ok r
      → (check_sigchain j decode e m sc ≡ ok r)
        × ((index j decode (record { doc_kid = kid; result = r }) e.indexed_at m).0 ≡ ok tt)
        × ((update_loaded j decode e m kid sc).1
            ≡ (index j decode (record { doc_kid = kid; result = r }) e.indexed_at m).1)
  unfolding update_loaded
  update_loaded-eq-ok kid sc r h = elim (Result-cases (check_sigchain j decode e m sc)) [
    | inr (x, f) ↦ ground (arith, f)
    | inl (found, f) ↦
        elim (Result-cases
          (index j decode (record { doc_kid = kid; result = found }) e.indexed_at m).0) [
            | inr (x, g) ↦ ground (arith, f, g)
            | inl (_, g) ↦
                let same : found ≡ r = ground (arith, f, g) in
                let at = λ (o : Option UserResult).
                  index j decode (record { doc_kid = kid; result = o }) e.indexed_at m in
                (
                  f ∙ ap ok same,
                  ap (λ o. (at o).0) (sym same) ∙ g,
                  rw (update_loaded, f, g) (ap (λ o. (at o).1) same),
                )
          ]
  ]

  -- A check that ends in a connection failure keeps the time of the last success.
  kept :
      (sc : Sigchain) (old after : UserResult)
      → get j decode m sc.kid ≡ ok (some old)
      → check_sigchain j decode e m sc ≡ ok (some after)
      → after.status ≡ status_conn_failure
      → after.verified_at ≡ old.verified_at
  unfolding start
  kept sc old after found h status =
      let (usr, _, is) = check_sigchain-IsChecked j decode e sound m sc after h in
      elim is.outcome [
        | inl verified ↦ absurd (
            cc (
              ok-ne-failure,
              ap (λ s. str_eq s status_ok) (sym status ∙ verified.good),
              str_eq_self status_ok,
            ))
        | inr failed ↦
            let before : is.before ≡ some old = cc (is.found, found) in
            failed.kept ∙ ap (λ b. (start b usr).verified_at) before
      ]

  of_user :
      (sc : Sigchain) (usr : User) (after : UserResult)
      → find_in_sigchain e.world.urls e.world.unmarshal sc ≡ ok (some usr)
      → check_sigchain j decode e m sc ≡ ok (some after)
      → after.user ≡ some usr
  of_user sc usr after found h =
      let (v, other, is) = check_sigchain-IsChecked j decode e sound m sc after h in
      let same : v ≡ usr = cc (found, other) in is.of_user ∙ ap some same

  -- Where a key had a cached result, of any user, and `Update` of a chain with a user ends with the
  -- status of a connection failure, `User` of the name of that user gives the failed result exactly
  -- if the cached result was verified less than two days before the time of indexing, and nothing
  -- if not. The services do what those of the package do, the names are without slashes, and the
  -- JSON of the document is read back.
  pub lookup_user-update_loaded :
      (sc : Sigchain) (old after : UserResult) (usr : User) (b : Str)
      → IsComponent sc.kid
      → IsIndexable usr
      → j.marshal (record { doc_kid = sc.kid; result = some after }) ≡ some b
      → j.unmarshal b ≡ some (record { doc_kid = sc.kid; result = some after })
      → get j decode m sc.kid ≡ ok (some old)
      → find_in_sigchain e.world.urls e.world.unmarshal sc ≡ ok (some usr)
      → (update_loaded j decode e m sc.kid sc).0 ≡ ok (some after)
      → after.status ≡ status_conn_failure
      → lookup_user j decode (update_loaded j decode e m sc.kid sc).1 (user_id usr)
        ≡ ok (if was_verified_recently old e.indexed_at then some after else none)
  lookup_user-update_loaded sc old after usr b hk hu em back found in_chain h status =
      let (checked, indexed, leaves) = update_loaded-eq-ok sc.kid sc (some after) h in
      let d : KeyDocument = record { doc_kid = sc.kid; result = some after } in
      let looked =
        lookup_user-index j decode d b e.indexed_at hk em back after usr hu refl
          (of_user sc usr after in_chain checked) m indexed in
      let time = kept sc old after found checked status in
      ap (λ s. lookup_user j decode s (user_id usr)) leaves
      ∙ looked
      ∙ ap (λ i. ok (if i then some after else none))
          (is_indexed-conn_failure after e.indexed_at status
            ∙ ap
                (λ t.
                  not (int_eq t (pos 0))
                  && int_ltb (time_sub e.indexed_at (parse_millis t)) two_days)
                time)
