-- ===== src/Sigchain/Adding.antt =====
-- sigchain.go: `Add` keeps a chain valid.
use keys.Common.{
  ℕ, zero, suc, ◌+◌, ◌≤◌, ◌<◌, List, [], ◌∷◌, Option, none, some, ltb, length, length-append,
  get_elem?-of_lt, err, ◌≡◌, ◌≢◌, refl, arith, Result-cases, Bool-cases, inl, inr,
}
use keys.Common.Int.{ℤ, pos, negsuc, max_int}
use keys.Crypto.{Crypto}
use keys.Statement.{Statement}
use keys.Sigchain.{
  Sigchain, verify_revoke, verify_statement, statement_at, index_out_of_range, last, sigchain_hash,
  verify_link, check_add, append, add, add_all,
}
use keys.Sigchain.Revokes.{check_add-eq-ok}
use keys.Sigchain.Invariant.{
  IsValid, append-IsPlaced, append-first, append-linked, append-revoked, next_seq,
}

-- The index that `VerifyStatement` reads is in range where the sequence number is the next one.
verify_revoke-in_range :
    (s : Sigchain) (st : Statement) (n : ℕ)
    → st.seq ≡ pos (n + 1)
    → n ≤ length s.statements
    → verify_revoke s st ≢ err index_out_of_range
unfolding verify_revoke statement_at
verify_revoke-in_range s st n e l h = of_revoke st.revoke refl
  where
    of_revoke : (i : ℤ) → st.revoke ≡ i → ⊥
    of_revoke (pos zero) r = ground (arith, r)
    of_revoke (pos (suc j)) r = elim (Bool-cases (ltb j n)) [
      | inl below ↦
          (let (t, found) = get_elem?-of_lt s.statements j (ground arith) in
            ground (arith, r, found))
      | inr above ↦ ground (arith, r, above)
    ]
    of_revoke (negsuc j) r = ground (arith, r)

module _ (c : Crypto) where
  -- `Add` keeps a valid chain of less than 2^63 - 1 statements valid, whether or not it takes the
  -- statement: in a valid chain the statements are numbered from 1, belong to the key and verify,
  -- the first has no previous hash and each later one has the hash of the one before, and each
  -- number given as revoked was revoked by a later statement of the chain and is no revoke itself.
  pub add-IsValid :
      (s : Sigchain) (st : Statement)
      → IsValid c s
      → length s.statements < max_int
      → IsValid c (add c s st).1
  unfolding add
  add-IsValid s st v fits = elim (Result-cases (check_add c s st)) [
    | inr (e, h) ↦ rw (add, h) v
    | inl (_, h) ↦
        (let a = check_add-eq-ok c s st h in
          rw (add, h)
            (record {
              placed = append-IsPlaced c v st a fits;
              first = append-first c v st a fits;
              linked = append-linked c v st a fits;
              revoked = append-revoked c v st a fits;
            }))
  ]

  pub length-add :
      (s : Sigchain) (st : Statement) → length (add c s st).1.statements ≤ length s.statements + 1
  unfolding add append
  length-add s st = elim (Result-cases (check_add c s st)) [
    | inr (e, h) ↦ rw (add, h) (omega arith)
    | inl (_, h) ↦ rw (add, h) (omega (arith, length-append s.statements (st ∷ [])))
  ]

  -- Adding statements in any number to a valid chain, which is to stay below 2^63 - 1 statements,
  -- leaves a valid chain, also where one of them fails.
  pub add_all-IsValid :
      (s : Sigchain) (sts : List Statement)
      → IsValid c s
      → length s.statements + length sts < max_int
      → IsValid c (add_all c s sts).1
  unfolding add_all
  add_all-IsValid s [] v fits = v
  add_all-IsValid s (st ∷ sts) v fits = elim (Result-cases (add c s st).0) [
    | inr (e, h) ↦ rw (add_all, h) v
    | inl (_, h) ↦
        rw (add_all, h)
          (add_all-IsValid (add c s st).1 sts (add-IsValid s st v (omega arith))
            (omega (arith, length-add s st)))
  ]

  verify_link-in_range :
      (st : Statement) (prev : Option Statement) → verify_link c st prev ≢ err index_out_of_range
  unfolding verify_link sigchain_hash
  verify_link-in_range st none = ground arith
  verify_link-in_range st (some prev) = ground arith

  -- On a valid chain of less than 2^63 - 1 statements, `Add` does not read past the end of the
  -- chain.
  pub add-in_range :
      (s : Sigchain) (st : Statement)
      → IsValid c s
      → length s.statements < max_int
      → (add c s st).0 ≢ err index_out_of_range
  unfolding add check_add verify_statement
  add-in_range s st v fits h =
      verify_revoke-in_range s st (length s.statements)
        (next_seq c v st (ground (arith, verify_link-in_range st (last s))) fits) (omega arith)
        (ground (arith, verify_link-in_range st (last s)))
