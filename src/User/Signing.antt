-- ===== src/User/Signing.antt =====
-- user/user.go: what an accepted message says, and what a user's statement does to a sigchain.
use keys.Common.{
  ◌+◌, ◌<◌, List, [], ◌∷◌, ◌++◌, Option, none, some, Bool, true, false, not, Str, ltb, str_eq_iff,
  str_eq_self, codes, length, drop, get_last?-append, get_elem?-lt-length, Result, ok, err, ◌>>◌,
  fail_if, Result-cases, Option-cases, ◌≡◌, ◌≢◌, inl, inr, refl, sym, ap, arith, ◌∙◌,
}
use keys.Common.Int.{pos, int_eq_iff, incr, max_int}
use keys.Crypto.{Crypto, sign_overhead}
use keys.EdX25519
use keys.EdX25519.{PublicKey}
use keys.Encoding.Saltpack.{Base62, decode_saltpack}
use keys.Id.{parse_id}
use keys.Tsutil.{Time}
use keys.Statement
use keys.Statement.{Statement, bytes_of}
use keys.Sigchain.{
  Sigchain, statement_error, last, last_seq, lookup_revoke, is_revoked, append, previous_hash,
  new_sigchain_statement, find_last,
}
use keys.Sigchain.Invariant.{IsValid, last_seq-eq-length}
use keys.Sigchain.Create.{map_err-eq-ok, data_draft}
use keys.Sigchain.Find.{of_type, unless_revoked, find_last_lem, is_revoked-append}
use keys.User.Validate.Url.{Urls}
use keys.User.User.{
  User, UserFormat, Error, already_set, user_bytes, user_from, check_same, verify_user, validate,
  find_in_sigchain, new_user_statement,
}

-- What `Verify` has found when it accepts: bytes that the key of the user has signed, and in them a
-- user of the same identifier, service and name.
pub record IsSigned (x : Base62) (c : Crypto) (unmarshal : Str → Option UserFormat) (u : User)
    (msg : Str) : Type 0 where
  pub signed : Str
  pub brand : Str
  pub public : PublicKey
  pub stated : User
  pub armored : decode_saltpack x (λ s. s) msg false ≡ ok (signed, brand)
  pub identified : EdX25519.public_key_from_id u.kid ≡ ok public
  pub opened : EdX25519.verify c public signed ≡ ok (drop sign_overhead signed)
  pub read : user_from unmarshal (drop sign_overhead signed) ≡ ok stated
  pub same_kid : stated.kid ≡ u.kid
  pub same_service : stated.service ≡ u.service
  pub same_name : stated.name ≡ u.name

checked_value :
    {E : Type 0} (p q : Bool) (e f : E) (s t : Str)
    → (do fail_if p e; fail_if q f; ok s) ≡ ok t
    → t ≡ s
checked_value true q e f s t h = ground arith
checked_value false true e f s t h = ground arith
checked_value false false e f s t h = ground arith

verify-eq-ok :
    (c : Crypto) (k : PublicKey) (b out : Str)
    → EdX25519.verify c k b ≡ ok out
    → out ≡ drop sign_overhead b
unfolding EdX25519.verify
verify-eq-ok c k b out h =
    checked_value (ltb (length b) sign_overhead) (not (c.sign_open k.public_key b))
      EdX25519.not_enough_data EdX25519.verify_failed (drop sign_overhead b) out h

check_same-eq-ok :
    (u dec : User)
    → check_same u dec ≡ ok tt
    → (dec.kid ≡ u.kid) × (dec.service ≡ u.service) × (dec.name ≡ u.name)
unfolding check_same
check_same-eq-ok u dec h = (
  ground (arith, str_eq_iff dec.kid u.kid),
  ground (arith, str_eq_iff dec.service u.service),
  ground (arith, str_eq_iff dec.name u.name),
)

-- Where `Verify` of a user accepts a message, the message is the armor of bytes that the key of the
-- user opens, and these hold the JSON of a user with the same identifier, service and name.
pub verify_user-IsSigned :
    (x : Base62) (c : Crypto) (unmarshal : Str → Option UserFormat) (u : User) (msg : Str)
    → verify_user x c unmarshal u msg ≡ ok tt
    → IsSigned x c unmarshal u msg
unfolding verify_user
verify_user-IsSigned x c unmarshal u msg h =
    elim (Result-cases (decode_saltpack x (λ s. s) msg false)) [
      | inr (e, f) ↦ ground (arith, f)
      | inl ((b, brand), f) ↦ elim (Result-cases (EdX25519.public_key_from_id u.kid)) [
        | inr (e, g) ↦ ground (arith, f, g)
        | inl (k, g) ↦ elim (Result-cases (EdX25519.verify c k b)) [
          | inr (e, i) ↦ ground (arith, f, g, i)
          | inl (out, i) ↦ elim (Result-cases (user_from unmarshal out)) [
            | inr (e, j) ↦ ground (arith, f, g, i, j)
            | inl (dec, j) ↦
                (let (same_kid, same_service, same_name) =
                    check_same-eq-ok u dec (ground (arith, f, g, i, j)) in
                  let cut = verify-eq-ok c k b out i in
                  record {
                    signed = b;
                    brand = brand;
                    public = k;
                    stated = dec;
                    armored = f;
                    identified = g;
                    opened = i ∙ ap ok cut;
                    read = ap (user_from unmarshal) (sym cut) ∙ j;
                    same_kid = same_kid;
                    same_service = same_service;
                    same_name = same_name;
                  })
          ]
        ]
      ]
    ]

-- A user as its JSON text holds it.
abbrev pub format_of : User → UserFormat
format_of u = record {
  format_kid = u.kid;
  format_name = u.name;
  format_seq = u.seq;
  format_service = u.service;
  format_url = u.url;
}

validate-parse_id :
    (urls : Urls) (u : User) → validate urls u ≡ ok tt → (id : Str) × (parse_id u.kid ≡ ok id)
unfolding validate
validate-parse_id urls u h = elim (Result-cases (parse_id u.kid)) [
  | inl (id, e) ↦ (id, e)
  | inr (x, e) ↦ ground (arith, e)
]

parse_id_lem : (s id : Str) → parse_id s ≡ ok id → id ≡ s
unfolding parse_id
parse_id_lem [] id h = ground arith
parse_id_lem (x ∷ s) id h = ground arith

user_from_lem :
    (urls : Urls) (unmarshal : Str → Option UserFormat) (u : User) (b : Str)
    → validate urls u ≡ ok tt
    → unmarshal b ≡ some (format_of u)
    → user_from unmarshal b ≡ ok u
unfolding user_from
user_from_lem urls unmarshal u b h e =
    let (id, p) = validate-parse_id urls u h in
    let q : parse_id u.kid ≡ ok u.kid = p ∙ ap ok (parse_id_lem u.kid id p) in rw (user_from, e, q)

-- The next number of a valid chain is not revoked.
next-is_revoked :
    (c : Crypto) (s : Sigchain) → IsValid c s → is_revoked s (pos (length s.statements + 1)) ≡ false
unfolding is_revoked
next-is_revoked c s v =
    elim (Option-cases (lookup_revoke (pos (length s.statements + 1)) s.revokes)) [
      | inl e ↦ rw (is_revoked, e)
      | inr (st, e) ↦
          (let (i, there, names, earlier) = v.revoked (pos (length s.statements + 1)) st e in
            let (j, t, r, before, _, _) = earlier in
            let same : pos (length s.statements + 1) ≡ pos (j + 1) = sym names ∙ r in
            absurd (ground (arith, get_elem?-lt-length s.statements i st there, same)))
    ]

of_type-append :
    (typ : Str) (sts : List Statement) (st : Statement)
    → st.typ ≡ typ
    → of_type typ (sts ++ st ∷ []) ≡ of_type typ sts ++ st ∷ []
unfolding of_type
of_type-append typ [] st h = rw (of_type, h, str_eq_self typ)
of_type-append typ (x ∷ sts) st h = ground (arith, of_type-append typ sts st h)

-- A statement of a type is found as the last of that type once it is appended.
find_last-append :
    (s : Sigchain) (st : Statement) (typ : Str)
    → typ ≢ []
    → st.typ ≡ typ
    → is_revoked (append s st) st.seq ≡ false
    → find_last (append s st) typ ≡ some st
unfolding append unless_revoked
find_last-append s st typ given h live =
    find_last_lem (append s st) typ given
    ∙ rw (
      append,
      of_type-append typ s.statements st h,
      get_last?-append (of_type typ s.statements) st,
      unless_revoked,
      live,
    )

-- What signing and the sigchain leave of a draft.
sign-draft :
    (c : Crypto) (st signed : Statement) (sk : EdX25519.Key)
    → Statement.sign c st sk ≡ ok signed
    → (signed.contents ≡ st.contents)
      × (signed.seq ≡ st.seq)
      × (signed.typ ≡ st.typ)
      × (signed.revoke ≡ st.revoke)
unfolding Statement.sign
sign-draft c st signed sk h = (ground arith, ground arith, ground arith, ground arith)

new_sigchain_statement-draft :
    (c : Crypto) (sc : Sigchain) (b typ : Str) (sk : EdX25519.Key) (ts : Time) (st : Statement)
    → new_sigchain_statement c sc (some b) sk typ ts ≡ ok st
    → (st.contents ≡ some b) × (st.seq ≡ incr (last_seq sc)) × (st.typ ≡ typ) × (st.revoke ≡ pos 0)
unfolding new_sigchain_statement
new_sigchain_statement-draft c sc b typ sk ts st h =
    elim (Result-cases (previous_hash c (last sc))) [
      | inr (x, e) ↦ ground (arith, e)
      | inl (prev, e) ↦ sign-draft c (data_draft sc b sk typ ts prev) st sk (
          map_err-eq-ok statement_error (Statement.sign c (data_draft sc b sk typ ts prev) sk)
            (ground (arith, e)))
    ]

-- What is known of a statement that `NewSigchainStatement` has made for a user.
pub record IsStatementOf (c : Crypto) (urls : Urls) (sc : Sigchain) (u : User) (sk : EdX25519.Key)
    (ts : Time) (st : Statement) : Type 0 where
  pub contents : Str
  pub valid : validate urls u ≡ ok tt
  pub serialized : user_bytes u ≡ ok contents
  pub made : new_sigchain_statement c sc (some contents) sk (codes "user") ts ≡ ok st
  pub numbered : st.seq ≡ u.seq

new_user_statement-eq-ok :
    (c : Crypto) (urls : Urls) (unmarshal : Str → Option UserFormat) (sc : Sigchain) (u : User)
    (sk : EdX25519.Key) (ts : Time) (st : Statement)
    → new_user_statement urls unmarshal c sc u sk ts ≡ ok st
    → IsStatementOf c urls sc u sk ts st
unfolding new_user_statement
new_user_statement-eq-ok c urls unmarshal sc u sk ts st h = elim (Result-cases (validate urls u)) [
  | inr (x, e) ↦ ground (arith, e)
  | inl (_, e) ↦ elim (Result-cases (find_in_sigchain urls unmarshal sc)) [
    | inr (x, f) ↦ ground (arith, e, f)
    | inl (found, f) ↦ elim (Result-cases (user_bytes u)) [
      | inr (x, g) ↦ ground (arith, e, f, g)
      | inl (b, g) ↦
          elim (Result-cases (new_sigchain_statement c sc (some b) sk (codes "user") ts)) [
            | inr (x, i) ↦ ground (arith, e, f, g, i)
            | inl (new, i) ↦
                (let same : new ≡ st = ground (arith, e, f, g, i) in
                  record {
                    contents = b;
                    valid = e;
                    serialized = g;
                    made = i ∙ ap ok same;
                    numbered = ground (arith, e, f, g, i, int_eq_iff new.seq u.seq);
                  })
          ]
    ]
  ]
]

kept_lem :
    (r : Result Error Unit) (u : User)
    → r ≡ ok tt
    → let kept : Result Error (Option User) = elim r [ err _ ↦ ok none | ok _ ↦ ok (some u) ] in
      kept ≡ ok (some u)
kept_lem (ok _) u h = refl
kept_lem (err e) u h = ground arith

-- A user whose statement is appended to a valid chain is the one that `FindInSigchain` then gives,
-- and the chain takes no further user until it is revoked.
module _ (c : Crypto) (urls : Urls) (unmarshal : Str → Option UserFormat) (sc : Sigchain) (u : User)
    (sk : EdX25519.Key) (ts : Time) (st : Statement) (v : IsValid c sc)
    (fits : length sc.statements < max_int)
    (reads_back : (b : Str) → user_bytes u ≡ ok b → unmarshal b ≡ some (format_of u))
    (h : new_user_statement urls unmarshal c sc u sk ts ≡ ok st) where
  -- Where `NewSigchainStatement` makes a statement of a user for a valid chain of less than 2^63 -
  -- 1 statements, `FindInSigchain` of the chain with that statement gives that user, if the JSON of
  -- the user is read back.
  pub find_in_sigchain-append : find_in_sigchain urls unmarshal (append sc st) ≡ ok (some u)
  unfolding find_in_sigchain incr
  find_in_sigchain-append =
      let s = new_user_statement-eq-ok c urls unmarshal sc u sk ts st h in
      let (held, seq, typ, revoke) =
        new_sigchain_statement-draft c sc s.contents (codes "user") sk ts st s.made in
      let number : st.seq ≡ pos (length sc.statements + 1) =
        seq ∙ ap incr (last_seq-eq-length c v) ∙ ground arith in
      let live : is_revoked (append sc st) st.seq ≡ false =
        is_revoked-append sc st st.seq ∙ rw (revoke, number, next-is_revoked c sc v) in
      let found : find_last (append sc st) (codes "user") ≡ some st =
        find_last-append sc st (codes "user") (λ e. ground (arith, e)) typ live in
      rw
        (
          find_in_sigchain,
          found,
          held,
          user_from_lem urls unmarshal u s.contents s.valid (reads_back s.contents s.serialized),
        )
        (kept_lem (validate urls u) u s.valid)

  -- After the statement of a user was appended to a valid chain of less than 2^63 - 1 statements,
  -- `NewSigchainStatement` of any valid user, with any key, fails with `ErrUserAlreadySet`, if the
  -- JSON of the first user is read back.
  pub new_user_statement-twice :
      (w : User) (again : EdX25519.Key) (at : Time)
      → validate urls w ≡ ok tt
      → new_user_statement urls unmarshal c (append sc st) w again at ≡ err already_set
  unfolding new_user_statement
  new_user_statement-twice w again at valid =
      rw (new_user_statement, valid, find_in_sigchain-append)
