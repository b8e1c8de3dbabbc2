-- ===== src/Sigchain/Revokes.antt =====
-- sigchain.go: what the checks of `Add` give, and the map of revokes.
use keys.Common.{
  ℕ, zero, suc, ◌+◌, ◌<◌, List, [], ◌∷◌, none, some, str_eq_iff, get_elem?, if◌then◌else◌, ok, ◌≡◌,
  ◌≢◌, refl, arith, Result-cases, Option-cases, ◌⊎◌, inl, inr, ap, ◌∙◌, sym,
}
use keys.Common.Int.{ℤ, pos, negsuc, int_eq, int_eq_iff, incr}
use keys.Crypto.{Crypto}
use keys.Statement
use keys.Statement.{Statement, bytes_of}
use keys.Sigchain.{
  Sigchain, last, lookup_revoke, insert_revoke, statement_at, verify_revoke, sigchain_hash,
  verify_link, verify_statement, check_add,
}

pub lookup_revoke-insert_revoke :
    (n i : ℤ) (st : Statement) (rs : List (ℤ × Statement))
    → lookup_revoke i (insert_revoke n st rs) ≡ (if int_eq n i then some st else lookup_revoke i rs)
unfolding lookup_revoke insert_revoke
lookup_revoke-insert_revoke n i st [] = refl
lookup_revoke-insert_revoke n i st ((j, old) ∷ rs) =
    ground
      (arith, int_eq_iff n i, int_eq_iff j n, int_eq_iff j i, lookup_revoke-insert_revoke n i st rs)

module _ (c : Crypto) where
  -- What a statement that may be added satisfies.
  pub record IsAddable (s : Sigchain) (st : Statement) : Type 0 where
    pub owned : st.kid ≡ s.kid
    pub verified : Statement.verify c st ≡ ok tt
    pub linked : verify_link c st (last s) ≡ ok tt
    pub revoking : verify_revoke s st ≡ ok tt

  pub check_add-eq-ok : (s : Sigchain) (st : Statement) → check_add c s st ≡ ok tt → IsAddable s st
  unfolding check_add verify_statement
  check_add-eq-ok s st h = record {
    owned = ground (arith, str_eq_iff st.kid s.kid);
    verified = ground arith;
    linked = ground arith;
    revoking = ground arith;
  }

  -- The link to the statement before: the next number, and its hash.
  pub verify_link-eq-ok :
      (st prev : Statement)
      → verify_link c st (some prev) ≡ ok tt
      → (st.seq ≡ incr prev.seq) × (sigchain_hash c prev ≡ ok (bytes_of st.prev))
  unfolding verify_link
  verify_link-eq-ok st prev h = elim (Result-cases (sigchain_hash c prev)) [
    | inl (hash, e) ↦ (
      ground (arith, int_eq_iff st.seq (incr prev.seq)),
      e ∙ ap ok (sym (ground (arith, e, str_eq_iff (bytes_of st.prev) hash))),
    )
    | inr (x, e) ↦ ground (arith, e)
  ]

  pub verify_link_first :
      (st : Statement) → verify_link c st none ≡ ok tt → (st.seq ≡ pos 1) × (st.prev ≡ none)
  unfolding verify_link
  verify_link_first st h = ground (arith, int_eq_iff st.seq (pos 1))

-- The statement revokes one with an index below `n` that is no revoke itself.
abbrev pub RevokesBefore : Sigchain → Statement → ℕ → Type 0
RevokesBefore s st n =
    (j : ℕ) × (t : Statement) × (st.revoke ≡ pos (j + 1))
    × (j < n)
    × (get_elem? s.statements j ≡ some t)
    × (t.revoke ≡ pos 0)

-- A revoke that passes refers to a statement before it that is no revoke.
pub verify_revoke-eq-ok :
    (s : Sigchain) (st : Statement) (n : ℕ)
    → st.seq ≡ pos (n + 1)
    → verify_revoke s st ≡ ok tt
    → st.revoke ≢ pos 0
    → RevokesBefore s st n
unfolding verify_revoke statement_at
verify_revoke-eq-ok s st n e h k = of_revoke st.revoke refl
  where
    of_target :
        (j : ℕ)
        → st.revoke ≡ pos (suc j)
        → ((get_elem? s.statements j ≡ none)
            ⊎ ((t : Statement) × (get_elem? s.statements j ≡ some t)))
        → RevokesBefore s st n
    of_target j r (inl missing) = ground arith
    of_target j r (inr (t, found)) =
        (j, t, ground arith, ground arith, found, ground (arith, int_eq_iff t.revoke (pos 0)))

    of_revoke : (i : ℤ) → st.revoke ≡ i → RevokesBefore s st n
    of_revoke (pos zero) r = absurd (k r)
    of_revoke (pos (suc j)) r = of_target j r (Option-cases (get_elem? s.statements j))
    of_revoke (negsuc j) r = ground arith
