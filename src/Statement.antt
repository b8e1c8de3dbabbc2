-- ===== src/Statement.antt =====
-- statement.go: signed statements, their bytes and their verification.
pub mod Laws
use keys.Common.{
  ℕ, List, [], ◌∷◌, ◌++◌, Option, none, some, Bool, true, false, not, ◌==◌, Str, str_eq, codes,
  length, if◌then◌else◌, Result, ok, err, ◌>>=◌, ◌>>◌, fail_if, map_err,
}
use keys.Common.Int.{ℤ, pos, negsuc, int_eq, int_ltb, itoa}
use keys.Tsutil.{Time, is_zero, millis_of}
use keys.Encoding.Base64
use keys.Json
use keys.Json.{Entry, string_entry, int_entry}
use keys.Crypto.{Crypto}
use keys.EdX25519
use keys.Id.{with_seq}

-- A `[]byte`, where `none` is nil.
abbrev pub Bytes : Type 0
Bytes = Option Str

-- The contents of a byte slice: none of nil.
abbrev pub bytes_of : Bytes → Str
bytes_of none = []
bytes_of (some b) = b

pub record Statement : Type 0 where
  pub sig : Bytes
  pub kid : Str
  pub contents : Bytes
  pub seq : ℤ
  pub prev : Bytes
  pub revoke : ℤ
  pub typ : Str
  pub timestamp : Time
  pub nonce : Bytes

-- `marshal_panic` is the panic of `statementBytes`.
pub data Error : Type 0 where
  key_error : EdX25519.Error → Error
  missing_signature signature_already_set key_id_mismatch bytes_mismatch marshal_panic : Error

-- `json.String(name, MustEncode(b, Base64))` if there are bytes.
unfoldable pub bytes_entry : Str → Bytes → List Entry
bytes_entry name b =
    if length (bytes_of b) == 0 then [] else string_entry name (Base64.encode (bytes_of b)) ∷ []

-- `json.Int(name, i)` if it is not 0.
unfoldable pub number_entry : Str → ℤ → List Entry
number_entry name i = if int_eq i (pos 0) then [] else int_entry name i ∷ []

-- The entries of a statement in the order that they are written.
unfoldable pub statement_entries : Statement → Bytes → List Entry
statement_entries st sig =
    string_entry (codes ".sig") (Base64.encode (bytes_of sig))
    ∷ (bytes_entry (codes "data") st.contents
        ++ (string_entry (codes "kid") st.kid
            ∷ (bytes_entry (codes "nonce") st.nonce
                ++ (bytes_entry (codes "prev") st.prev
                    ++ (number_entry (codes "revoke") st.revoke
                        ++ (number_entry (codes "seq") st.seq
                            ++ ((if is_zero st.timestamp
                                  then []
                                  else int_entry (codes "ts") (millis_of st.timestamp) ∷ [])
                                ++ (if str_eq st.typ []
                                    then []
                                    else string_entry (codes "type") st.typ ∷ []))))))))

-- `statementBytes(st, sig)`, which panics where the JSON cannot be written.
unfoldable pub statement_bytes : Statement → Bytes → Result Error Str
statement_bytes st sig = map_err (λ _. marshal_panic) (Json.marshal (statement_entries st sig))

-- `s.BytesToSign()`.
unfoldable pub bytes_to_sign : Statement → Result Error Str
bytes_to_sign st = statement_bytes st none

-- `StatementID(kid, seq)`; `none` is the panic of `WithSeq`, which `seq <= 0` rules out.
unfoldable pub statement_id : Str → ℤ → Option Str
statement_id kid seq = if int_ltb seq (pos 1) then some kid else with_seq kid seq

-- `s.URL()`.
unfoldable pub url : Statement → Str
url st = if int_eq st.seq (pos 0) then [] else b'/' ∷ st.kid ++ b'/' ∷ itoa st.seq

module _ (c : Crypto) where
  -- `s.Sign(signKey)`.
  unfoldable pub sign : Statement → EdX25519.Key → Result Error Statement
  sign st sign_key = do
    fail_if (elim st.sig [ none ↦ false | some _ ↦ true ]) signature_already_set
    fail_if (not (str_eq st.kid sign_key.public.id)) key_id_mismatch
    b ← bytes_to_sign st
    ok (record st { sig = some (EdX25519.sign_detached c sign_key b) })

  -- `s.Verify()`.
  unfoldable pub verify : Statement → Result Error Unit
  verify st = do
    spk ← map_err key_error (EdX25519.public_key_from_id st.kid)
    fail_if (length (bytes_of st.sig) == 0) missing_signature
    b ← bytes_to_sign st
    map_err key_error (EdX25519.verify_detached c spk (bytes_of st.sig) b)

  -- `s.VerifySpecific(bytesToSign)`.
  unfoldable pub verify_specific : Statement → Str → Result Error Unit
  verify_specific st specific = do
    serialized ← bytes_to_sign st
    fail_if (not (str_eq specific serialized)) bytes_mismatch
    verify st

  -- `s.Bytes()`.
  unfoldable pub bytes : Statement → Result Error Str
  bytes st = do verify st; statement_bytes st st.sig
