-- ===== src/Sigchain/Invariant.antt =====
-- sigchain.go: what holds of every chain that `Add` builds.
use keys.Common.{
  ℕ, suc, ◌+◌, ◌≤◌, ◌<◌, [], ◌∷◌, none, some, Str, length, get_last?, get_elem?,
  get_elem?-append_left, get_elem?-append_last, get_last?-get_elem?, get_last?-none,
  get_last?-length_zero, get_last?-get_elem?_last, get_elem?-append_cases, get_elem?-lt-length, ok,
  ◌≡◌, arith, Option-cases, Bool-cases, inl, inr, ◌∙◌, sym,
}
use keys.Common.Int.{ℤ, pos, int_eq, int_eq_iff, incr, max_int}
use keys.Crypto.{Crypto}
use keys.Statement
use keys.Statement.{Statement, bytes_of}
use keys.Sigchain.{
  Sigchain, new_sigchain, last, last_seq, lookup_revoke, sigchain_hash, verify_link, append,
}
use keys.Sigchain.Revokes.{
  lookup_revoke-insert_revoke, IsAddable, verify_link-eq-ok, verify_link_first, RevokesBefore,
  verify_revoke-eq-ok,
}

-- What a statement revokes stays where it is.
RevokesBefore-append :
    (s : Sigchain) (t : Statement) (i : ℕ) (st : Statement)
    → i ≤ length s.statements
    → RevokesBefore s t i
    → RevokesBefore (append s st) t i
unfolding append
RevokesBefore-append s t i st l (j, target, r, lt, e, k) =
    (j, target, r, lt, get_elem?-append_left s.statements (st ∷ []) j (omega arith) ∙ e, k)

module _ (c : Crypto) where
  -- What holds of the statement at index `i`.
  pub record IsPlaced (s : Sigchain) (i : ℕ) (st : Statement) : Type 0 where
    pub numbered : st.seq ≡ pos (i + 1)
    pub owned : st.kid ≡ s.kid
    pub verified : Statement.verify c st ≡ ok tt

  -- The first statement has no previous hash, and each later one the hash of the one before.
  pub record IsValid (s : Sigchain) : Type 0 where
    pub placed : (i : ℕ) (st : Statement) → get_elem? s.statements i ≡ some st → IsPlaced s i st
    pub first : (st : Statement) → get_elem? s.statements 0 ≡ some st → st.prev ≡ none
    pub linked :
        (i : ℕ) (p st : Statement)
        → get_elem? s.statements i ≡ some p
        → get_elem? s.statements (suc i) ≡ some st
        → sigchain_hash c p ≡ ok (bytes_of st.prev)
    pub revoked :
        (n : ℤ) (st : Statement)
        → lookup_revoke n s.revokes ≡ some st
        → (i : ℕ) × (get_elem? s.statements i ≡ some st) × (st.revoke ≡ n) × RevokesBefore s st i

  pub new_sigchain-IsValid : (kid : Str) → IsValid (new_sigchain kid)
  unfolding new_sigchain lookup_revoke
  new_sigchain-IsValid kid = record {
    placed = λ i st h. cc;
    first = λ st h. cc;
    linked = λ i p st h k. cc;
    revoked = λ n st h. cc;
  }

  module _ {s : Sigchain} (v : IsValid s) where
    -- The sequence number of the last statement of a valid chain is the number of its statements.
    pub last_seq-eq-length : last_seq s ≡ pos (length s.statements)
    unfolding last_seq last
    last_seq-eq-length = elim (Option-cases (get_last? s.statements)) [
      | inl e ↦ rw (last_seq, last, e, get_last?-none s.statements e)
      | inr (st, e) ↦
          (let (n, l, g) = get_last?-get_elem? s.statements st e in
            let q = (v.placed n st g).numbered in rw (last_seq, last, e) (ground (arith, l, q)))
    ]

    pub next_seq :
        (st : Statement)
        → verify_link c st (last s) ≡ ok tt
        → length s.statements < max_int
        → st.seq ≡ pos (length s.statements + 1)
    unfolding last incr
    next_seq st link fits = elim (Option-cases (get_last? s.statements)) [
      | inl e ↦
          (let linked : verify_link c st none ≡ ok tt = rw (← e) link in
            ground (arith, (verify_link_first c st linked).0, get_last?-none s.statements e))
      | inr (p, e) ↦
          (let linked : verify_link c st (some p) ≡ ok tt = rw (← e) link in
            let (n, l, g) = get_last?-get_elem? s.statements p e in
            let q = (v.placed n p g).numbered in
            ground (arith, (verify_link-eq-ok c st p linked).0, q, l))
    ]

    module _ (st : Statement) (a : IsAddable c s st) (fits : length s.statements < max_int) where
      pub append-IsPlaced :
          (i : ℕ) (t : Statement)
          → get_elem? (append s st).statements i ≡ some t
          → IsPlaced (append s st) i t
      unfolding append
      append-IsPlaced i t h = elim (get_elem?-append_cases s.statements st t i h) [
        | inl (l, e) ↦
            (let p = v.placed i t e in
              record { numbered = p.numbered; owned = p.owned; verified = p.verified })
        | inr (l, e) ↦
            rw (l, e)
              (record {
                numbered = next_seq st a.linked fits;
                owned = a.owned;
                verified = a.verified;
              })
      ]

      pub append-first :
          (t : Statement) → get_elem? (append s st).statements 0 ≡ some t → t.prev ≡ none
      unfolding append last
      append-first t h = elim (get_elem?-append_cases s.statements st t 0 h) [
        | inl (l, e) ↦ v.first t e
        | inr (l, e) ↦
            (let no_last : get_last? s.statements ≡ none =
                get_last?-length_zero s.statements (sym l) in
              rw e (verify_link_first c st (rw (← no_last) a.linked)).1)
      ]

      pub append-linked :
          (i : ℕ) (p t : Statement)
          → get_elem? (append s st).statements i ≡ some p
          → get_elem? (append s st).statements (suc i) ≡ some t
          → sigchain_hash c p ≡ ok (bytes_of t.prev)
      unfolding append last
      append-linked i p t h k = elim (get_elem?-append_cases s.statements st t (suc i) k) [
        | inl (l, e) ↦
            v.linked i p t (sym (get_elem?-append_left s.statements (st ∷ []) i (omega arith)) ∙ h)
              e
        | inr (l, e) ↦
            (let before = sym (get_elem?-append_left s.statements (st ∷ []) i (omega arith)) ∙ h in
              let is_last = get_last?-get_elem?_last s.statements i p (sym l) before in
              rw e (verify_link-eq-ok c st p (rw (← is_last) a.linked)).1)
      ]

      old_revoke :
          (n : ℤ) (t : Statement)
          → lookup_revoke n s.revokes ≡ some t
          → (i : ℕ) × (get_elem? (append s st).statements i ≡ some t)
            × (t.revoke ≡ n)
            × RevokesBefore (append s st) t i
      old_revoke n t h =
          let (i, e, r, b) = v.revoked n t h in
          let l = get_elem?-lt-length s.statements i t e in
          (
            i,
            unfold append in (get_elem?-append_left s.statements (st ∷ []) i l ∙ e),
            r,
            RevokesBefore-append s t i st (omega arith) b,
          )

      pub append-revoked :
          (n : ℤ) (t : Statement)
          → lookup_revoke n (append s st).revokes ≡ some t
          → (i : ℕ) × (get_elem? (append s st).statements i ≡ some t)
            × (t.revoke ≡ n)
            × RevokesBefore (append s st) t i
      unfolding append
      append-revoked n t h = elim (Bool-cases (int_eq st.revoke (pos 0))) [
        | inl no_revoke ↦ old_revoke n t (ground (arith, no_revoke))
        | inr new ↦ elim (Bool-cases (int_eq st.revoke n)) [
          | inr other ↦
              old_revoke n t
                (ground (arith, new, other, lookup_revoke-insert_revoke st.revoke n st s.revokes))
          | inl same ↦
              (let is_new : t ≡ st =
                  ground (arith, new, same, lookup_revoke-insert_revoke st.revoke n st s.revokes) in
                rw is_new (
                  length s.statements,
                  get_elem?-append_last s.statements st,
                  (int_eq_iff st.revoke n).0 same,
                  RevokesBefore-append s st (length s.statements) st (omega arith) (
                      verify_revoke-eq-ok s st (length s.statements) (next_seq st a.linked fits)
                        a.revoking (λ e. ground (arith, new, e))),
                ))
        ]
      ]
