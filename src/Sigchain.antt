-- ===== src/Sigchain.antt =====
-- sigchain.go: a chain of signed statements of one key.
pub mod Revokes
pub mod Invariant
pub mod Adding
pub mod Find
pub mod Create
pub mod Examples
use mathlib.Core.List.{reverse}
use keys.Common.{
  ℕ, zero, suc, ◌-◌, List, [], ◌∷◌, ◌++◌, Option, none, some, Bool, true, false, not, ◌==◌, ◌&&◌,
  Str, str_eq, codes, length, get_last?, get_elem?, if◌then◌else◌, Result, ok, err, ◌>>=◌, ◌>>◌,
  fail_if, map_err,
}
use keys.Common.Int.{ℤ, pos, negsuc, int_eq, int_ltb, incr}
use keys.Crypto.{Crypto}
use keys.EdX25519
use keys.Tsutil.{Time, zero_time}
use keys.Statement
use keys.Statement.{Statement, bytes_of}

pub record Sigchain : Type 0 where
  pub kid : Str
  pub statements : List Statement
  pub revokes : List (ℤ × Statement)

-- One constructor for each place that fails; `index_out_of_range` is the panic of an index
-- expression.
pub data Error : Type 0 where
  statement_error : Statement.Error → Error
  invalid_kid no_data : Error
  invalid_sequence previous_not_empty previous_empty previous_mismatch : Error
  revoke_self revoke_greater revoke_less index_out_of_range revoking_a_revoke : Error
  invalid_public_key invalid_revoke_seq already_revoked : Error

unfoldable pub new_sigchain : Str → Sigchain
new_sigchain kid = record { kid = kid; statements = []; revokes = [] }

-- `s.Last()`; `none` is nil.
unfoldable pub last : Sigchain → Option Statement
last s = get_last? s.statements

unfoldable pub last_seq : Sigchain → ℤ
last_seq s = elim (last s) [ none ↦ pos 0 | some st ↦ st.seq ]

-- `s.revokes[seq]`.
unfoldable pub lookup_revoke : ℤ → List (ℤ × Statement) → Option Statement
lookup_revoke seq [] = none
lookup_revoke seq ((i, st) ∷ rs) = if int_eq i seq then some st else lookup_revoke seq rs

-- `s.revokes[seq] = st`.
unfoldable pub insert_revoke : ℤ → Statement → List (ℤ × Statement) → List (ℤ × Statement)
insert_revoke seq st [] = (seq, st) ∷ []
insert_revoke seq st ((i, old) ∷ rs) =
    if int_eq i seq then (seq, st) ∷ rs else (i, old) ∷ insert_revoke seq st rs

unfoldable pub is_revoked : Sigchain → ℤ → Bool
is_revoked s seq = elim (lookup_revoke seq s.revokes) [ none ↦ false | some _ ↦ true ]

-- `s.statements[i-1]` for an `i` of at least 1.
unfoldable pub statement_at : Sigchain → ℤ → Result Error Statement
statement_at s (pos i) = elim (get_elem? s.statements (i - 1)) [
  | none ↦ err index_out_of_range
  | some st ↦ ok st
]
statement_at s (negsuc i) = err index_out_of_range

-- What `VerifyStatement` checks of a revoke.
unfoldable pub verify_revoke : Sigchain → Statement → Result Error Unit
verify_revoke s st = if int_eq st.revoke (pos 0) then ok tt else (do
  fail_if (int_eq st.revoke st.seq) revoke_self
  fail_if (int_ltb st.seq st.revoke) revoke_greater
  fail_if (int_ltb st.revoke (pos 1)) revoke_less
  revoked ← statement_at s st.revoke
  fail_if (not (int_eq revoked.revoke (pos 0))) revoking_a_revoke)

-- `s.FindLast(typ)`: the loop from the last statement to the first, over the reversed list.
unfoldable pub find_last_in : Sigchain → Str → List Statement → Option Statement
find_last_in s typ [] = none
find_last_in s typ (st ∷ sts) =
    let rest = find_last_in s typ sts in
    if str_eq typ []
    then some st
    else if str_eq st.typ typ
    then (if is_revoked s st.seq then none else some st)
    else rest

unfoldable pub find_last : Sigchain → Str → Option Statement
find_last s typ = find_last_in s typ (reverse s.statements)

-- The loop of `s.FindAll(typ)`.
unfoldable pub find_all_in : Sigchain → Str → List Statement → List Statement
find_all_in s typ [] = []
find_all_in s typ (st ∷ sts) =
    let rest = find_all_in s typ sts in
    if not (str_eq typ []) && str_eq st.typ typ
    then (if is_revoked s st.seq then rest else st ∷ rest)
    else rest

unfoldable pub find_all : Sigchain → Str → List Statement
find_all s typ = find_all_in s typ s.statements

-- What `Add` stores.
unfoldable pub append : Sigchain → Statement → Sigchain
append s st = record s {
  statements = s.statements ++ st ∷ [];
  revokes = if int_eq st.revoke (pos 0) then s.revokes else insert_revoke st.revoke st s.revokes;
}

module _ (c : Crypto) where
  -- `SigchainHash(st)`.
  unfoldable pub sigchain_hash : Statement → Result Error Str
  sigchain_hash st = do b ← map_err statement_error (Statement.bytes c st); ok (c.sha256 b)

  -- What `VerifyStatement` checks of the place in the chain.
  unfoldable pub verify_link : Statement → Option Statement → Result Error Unit
  verify_link st none = do
    fail_if (not (int_eq st.seq (pos 1))) invalid_sequence
    fail_if (elim st.prev [ none ↦ false | some _ ↦ true ]) previous_not_empty
  verify_link st (some prev) = do
    fail_if (not (int_eq st.seq (incr prev.seq))) invalid_sequence
    fail_if (length (bytes_of st.prev) == 0) previous_empty
    prev_hash ← sigchain_hash prev
    fail_if (not (str_eq (bytes_of st.prev) prev_hash)) previous_mismatch

  -- `s.VerifyStatement(st, prev)`.
  unfoldable pub verify_statement : Sigchain → Statement → Option Statement → Result Error Unit
  verify_statement s st prev = do
    fail_if (not (str_eq st.kid s.kid)) invalid_kid
    map_err statement_error (Statement.verify c st)
    verify_link st prev
    verify_revoke s st

  -- What `Add` checks.
  unfoldable pub check_add : Sigchain → Statement → Result Error Unit
  check_add s st = do
    fail_if (not (str_eq s.kid st.kid)) invalid_kid
    fail_if (length (bytes_of st.contents) == 0 && not (str_eq st.typ (codes "revoke"))) no_data
    verify_statement s st (last s)

  -- `s.Add(st)`.
  unfoldable pub add : Sigchain → Statement → Result Error Unit × Sigchain
  add s st = elim (check_add s st) [ err e ↦ (err e, s) | ok _ ↦ (ok tt, append s st) ]

  -- `s.AddAll(statements)`: the statements before the first that fails stay.
  unfoldable pub add_all : Sigchain → List Statement → Result Error Unit × Sigchain
  add_all s [] = (ok tt, s)
  add_all s (st ∷ sts) =
      let rest = add_all (add s st).1 sts in elim (add s st).0 [ err e ↦ (err e, s) | ok _ ↦ rest ]

  -- `sigchainPreviousHash(prev)`, nil for nil.
  unfoldable pub previous_hash : Option Statement → Result Error (Option Str)
  previous_hash none = ok none
  previous_hash (some prev) = do h ← sigchain_hash prev; ok (some h)

  -- `NewSigchainStatement(sc, b, sk, typ, ts)` of a chain that is not nil.
  unfoldable pub new_sigchain_statement :
      Sigchain → Statement.Bytes → EdX25519.Key → Str → Time → Result Error Statement
  new_sigchain_statement sc b sk typ ts = do
    fail_if (not (str_eq sc.kid sk.public.id)) invalid_public_key
    prev ← previous_hash (last sc)
    map_err statement_error (
        Statement.sign c
          (record {
            sig = none;
            kid = sk.public.id;
            contents = b;
            seq = incr (last_seq sc);
            prev = prev;
            revoke = pos 0;
            typ = typ;
            timestamp = ts;
            nonce = none;
          })
          sk)

  -- `NewRevokeStatement(sc, revoke, sk)` of a chain that is not nil.
  unfoldable pub new_revoke_statement : Sigchain → ℤ → EdX25519.Key → Result Error Statement
  new_revoke_statement sc revoke sk = do
    fail_if (not (str_eq sc.kid sk.public.id)) invalid_public_key
    fail_if (int_ltb revoke (pos 1)) invalid_revoke_seq
    fail_if (int_ltb (pos (length sc.statements)) revoke) invalid_revoke_seq
    fail_if (is_revoked sc revoke) already_revoked
    fail_if (int_eq revoke (incr (last_seq sc))) invalid_revoke_seq
    prev ← previous_hash (last sc)
    map_err statement_error (
        Statement.sign c
          (record {
            sig = none;
            kid = sc.kid;
            contents = none;
            seq = incr (last_seq sc);
            prev = prev;
            revoke = revoke;
            typ = codes "revoke";
            timestamp = zero_time;
            nonce = none;
          })
          sk)

  -- `s.Revoke(revoke, sk)`.
  unfoldable pub revoke_statement : Sigchain → ℤ → EdX25519.Key → Result Error Statement × Sigchain
  revoke_statement s revoke sk = elim (new_revoke_statement s revoke sk) [
    | err e ↦ (err e, s)
    | ok st ↦ elim (add s st).0 [ err e ↦ (err e, (add s st).1) | ok _ ↦ (ok st, (add s st).1) ]
  ]
