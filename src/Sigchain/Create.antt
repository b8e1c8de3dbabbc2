-- ===== src/Sigchain/Create.antt =====
-- sigchain.go: the statements that the chain's own key makes are ones that `Add` takes.
use keys.Common.{
  ◌<◌, [], ◌∷◌, Option, none, some, Bool, false, not, ◌==◌, ◌&&◌, Str, str_eq, str_eq_iff,
  str_eq_self, codes, length, All, drop, Result, ok, err, map_err, Result-cases, ◌≡◌, ◌≢◌, inl, inr,
  refl, sym, ap, arith, ◌∙◌,
}
use keys.Common.Int.{ℤ, pos, negsuc, int_eq_iff, int_ltb, incr, max_int}
use keys.Crypto.{Crypto, IsCrypto}
use keys.EdX25519
use keys.EdX25519.Laws.{IsKeyOf}
use keys.Tsutil.{Time, zero_time}
use keys.Statement
use keys.Statement.{Statement, bytes_of}
use keys.Statement.Laws.{sign-eq-ok, verify-sign}
use keys.Sigchain.{
  Sigchain, statement_error, last, last_seq, statement_at, verify_revoke, sigchain_hash,
  verify_link, verify_statement, check_add, append, add, previous_hash, new_sigchain_statement,
  new_revoke_statement,
}

-- What the two functions sign.
abbrev pub data_draft : Sigchain → Str → EdX25519.Key → Str → Time → Statement.Bytes → Statement
data_draft sc b sk typ ts prev = record {
  sig = none;
  kid = sk.public.id;
  contents = some b;
  seq = incr (last_seq sc);
  prev = prev;
  revoke = pos 0;
  typ = typ;
  timestamp = ts;
  nonce = none;
}

abbrev pub revoke_draft : Sigchain → ℤ → Statement.Bytes → Statement
revoke_draft sc n prev = record {
  sig = none;
  kid = sc.kid;
  contents = none;
  seq = incr (last_seq sc);
  prev = prev;
  revoke = n;
  typ = codes "revoke";
  timestamp = zero_time;
  nonce = none;
}

pub map_err-eq-ok :
    {E F A : Type 0} (f : E → F) (r : Result E A) {a : A} → map_err f r ≡ ok a → r ≡ ok a
map_err-eq-ok f (ok b) h = ground arith
map_err-eq-ok f (err e) h = ground arith

not_empty-and : (b : Str) → b ≢ [] → (test : Bool) → (length b == 0 && test) ≡ false
not_empty-and [] given test = absurd (given refl)
not_empty-and (x ∷ b) given test = ground arith

-- A revoke of a statement before it that is no revoke passes.
verify_revoke_lem :
    (sc : Sigchain) (st target : Statement) (n : ℤ)
    → st.revoke ≡ n
    → st.seq ≡ incr (pos (length sc.statements))
    → length sc.statements < max_int
    → int_ltb n (pos 1) ≡ false
    → int_ltb (pos (length sc.statements)) n ≡ false
    → statement_at sc n ≡ ok target
    → target.revoke ≡ pos 0
    → verify_revoke sc st ≡ ok tt
unfolding verify_revoke incr
verify_revoke_lem sc st target (negsuc n) r q fits low high found plain = ground arith
verify_revoke_lem sc st target (pos n) r q fits low high found plain =
    ground (arith, r, q, found, plain)

module _ (c : Crypto) where
  -- The checks of `Add` together.
  add_lem :
      (sc : Sigchain) (st : Statement)
      → sc.kid ≡ st.kid
      → (length (bytes_of st.contents) == 0 && not (str_eq st.typ (codes "revoke"))) ≡ false
      → Statement.verify c st ≡ ok tt
      → verify_link c st (last sc) ≡ ok tt
      → verify_revoke sc st ≡ ok tt
      → add c sc st ≡ (ok tt, append sc st)
  unfolding add check_add verify_statement
  add_lem sc st owner data_ verified linked revoking =
      let same = (str_eq_iff sc.kid st.kid).1 owner in
      let same_back = (str_eq_iff st.kid sc.kid).1 (sym owner) in
      rw (add, check_add, verify_statement, same, data_, same_back, verified, linked, revoking)

  module _ (laws : IsCrypto c) where
    sigchain_hash-ne :
        (st : Statement) (h : Str) → sigchain_hash c st ≡ ok h → (length h == 0) ≡ false
    unfolding sigchain_hash
    sigchain_hash-ne st h e = elim (Result-cases (Statement.bytes c st)) [
      | inl (b, f) ↦ ground (arith, f, laws.length-sha256 b)
      | inr (x, f) ↦ ground (arith, f)
    ]

    -- The next number and the hash of the last statement make the link.
    verify_link_lem :
        (st : Statement) (before : Option Statement)
        → st.seq ≡ incr (elim before [ none ↦ pos 0 | some p ↦ p.seq ])
        → previous_hash c before ≡ ok st.prev
        → verify_link c st before ≡ ok tt
    unfolding verify_link previous_hash incr
    verify_link_lem st none n h = ground arith
    verify_link_lem st (some p) n h = elim (Result-cases (sigchain_hash c p)) [
      | inl (hash, e) ↦
          ground
            (arith, e, int_eq_iff st.seq (incr p.seq), sigchain_hash-ne p hash e, str_eq_self hash)
      | inr (x, e) ↦ ground (arith, e)
    ]

    module _ (seed : Str) (sk : EdX25519.Key) (k : IsKeyOf seed sk)
        (bytes : All (λ x. x < 256) (drop 32 seed)) where
      -- A draft that carries the chain's number and hash is taken once it is signed.
      add-sign :
          (sc : Sigchain) (draft st : Statement)
          → sc.kid ≡ sk.public.id
          → (length (bytes_of draft.contents) == 0 && not (str_eq draft.typ (codes "revoke")))
            ≡ false
          → draft.seq ≡ incr (last_seq sc)
          → previous_hash c (last sc) ≡ ok draft.prev
          → verify_revoke sc draft ≡ ok tt
          → Statement.sign c draft sk ≡ ok st
          → add c sc st ≡ (ok tt, append sc st)
      unfolding last_seq verify_revoke
      add-sign sc draft st owner data_ number prev revoking signed =
          let (b, _, by, is) = sign-eq-ok c laws seed sk k draft st signed in
          add_lem sc st (owner ∙ sym by ∙ ap (λ t. t.kid) (sym is)) (rw is data_)
            (verify-sign c laws seed sk k draft st bytes signed)
            (rw is (verify_link_lem _ (last sc) number prev)) (rw is revoking)

      -- Where `NewSigchainStatement` with data that is not empty, and with a key that is made of
      -- its private key, makes a statement, `Add` takes it and appends it, if signing and hashing
      -- do what their packages document.
      pub add-new_sigchain_statement :
          (sc : Sigchain) (b : Str) (typ : Str) (ts : Time) (st : Statement)
          → b ≢ []
          → new_sigchain_statement c sc (some b) sk typ ts ≡ ok st
          → add c sc st ≡ (ok tt, append sc st)
      unfolding new_sigchain_statement verify_revoke
      add-new_sigchain_statement sc b typ ts st given h =
          elim (Result-cases (previous_hash c (last sc))) [
            | inr (x, e) ↦ ground (arith, e)
            | inl (prev, e) ↦
                add-sign sc (data_draft sc b sk typ ts prev) st
                  (ground (arith, str_eq_iff sc.kid sk.public.id)) (not_empty-and b given _) refl e
                  refl
                  (map_err-eq-ok statement_error
                    (Statement.sign c (data_draft sc b sk typ ts prev) sk) (ground (arith, e)))
          ]

      -- Where `NewRevokeStatement` for a statement of the chain that is no revoke itself, and with
      -- a key that is made of its private key, makes a statement, `Add` takes it and appends it, if
      -- the last sequence number of the chain is its length, below 2^63 - 1, and signing and
      -- hashing do what their packages document.
      pub add-new_revoke_statement :
          (sc : Sigchain) (n : ℤ) (target st : Statement)
          → last_seq sc ≡ pos (length sc.statements)
          → length sc.statements < max_int
          → statement_at sc n ≡ ok target
          → target.revoke ≡ pos 0
          → new_revoke_statement c sc n sk ≡ ok st
          → add c sc st ≡ (ok tt, append sc st)
      unfolding new_revoke_statement
      add-new_revoke_statement sc n target st numbered fits found plain h =
          elim (Result-cases (previous_hash c (last sc))) [
            | inr (x, e) ↦ ground (arith, e)
            | inl (prev, e) ↦
                add-sign sc (revoke_draft sc n prev) st
                  (ground (arith, str_eq_iff sc.kid sk.public.id))
                  (ap not (str_eq_self (codes "revoke"))) refl e
                  (verify_revoke_lem sc _ target n refl (ap incr numbered) fits (ground arith)
                    (ground arith) found plain)
                  (map_err-eq-ok statement_error (Statement.sign c (revoke_draft sc n prev) sk)
                    (ground (arith, e)))
          ]
