-- ===== src/Http/Auth.antt =====
-- http/auth.go: the signature in a header of a request, and its check. `net/url`, the decoding of
-- Base64 and Base62 are parameters.
pub mod Accepted
pub mod Replay
pub mod Window
pub mod Made
pub mod Digits
use keys.Common.{
  ◌≡◌, ℕ, zero, suc, ◌+◌, ◌*◌, List, [], ◌∷◌, ◌++◌, Option, none, some, Bool, true, false, not,
  ◌&&◌, ◌==◌, ltb, Str, str_eq, codes, length, if◌then◌else◌, Result, ok, err, ◌>>=◌, ◌>>◌, fail_if,
  map_err,
}
use keys.Common.Assoc
use keys.Common.Assoc.{Assoc}
use keys.Common.Int.{ℤ, pos, negsuc, int_ltb, itoa, max_int}
use keys.Common.Split.{split}
use keys.Crypto.{Crypto}
use keys.EdX25519
use keys.Encoding.Base64
use keys.Encoding.Saltpack.{Base62}
use keys.Id
use keys.Id.{parse_id}
use keys.Tsutil.{Time, millis_of, parse_millis, time_sub}
use keys.Http.Mem
use keys.Http.Mem.{parse_int}

-- What the code uses of a `url.URL`: its text, and the first value of a name in its query.
pub record Url : Type 0 where
  pub text : Str
  pub query : Str → Str

-- `url.Parse`, `none` for an error, and a URL with values set in its query.
pub record Urls : Type 0 where
  pub parse : Str → Option Url
  pub set_query : Url → List (Str × Str) → Url

-- What `net/url` documents: the query of a URL after `Set` has the value that was set last, and the
-- other values that it had.
pub record IsUrls (urls : Urls) : Type 0 where
  pub query-set_query :
      (u : Url) (kvs : Assoc Str) (k : Str)
      → (urls.set_query u kvs).query k
        ≡ (elim (Assoc.lookup k (Assoc.insert_all kvs [])) [ none ↦ u.query k | some v ↦ v ])

pub record Auth : Type 0 where
  pub auth_kid : Str
  pub auth_method : Str
  pub auth_url : Url
  pub sig : Str
  pub bytes_to_sign : Str

-- A nonce check of a store, which it may change.
abbrev pub NonceCheck : Type 0 → Type 0
NonceCheck S = S → Str → Result Mem.Error Unit × S

-- `nonce_check` is `none` where the function is nil.
pub record AuthRequest (S : Type 0) : Type 0 where
  pub method : Str
  pub url : Str
  pub content_hash : Str
  pub kid : Str
  pub auth : Str
  pub now : Time
  pub nonce_check : Option (NonceCheck S)

pub record AuthResult : Type 0 where
  pub result_kid : Str
  pub result_url : Url
  pub nonce : Str
  pub timestamp : Time

pub data Error : Type 0 where
  invalid_url invalid_url_parse nonce_missing nonce_invalid nonce_too_short : Error
  timestamp_missing timestamp_invalid timestamp_too_far : Error
  too_many_fields invalid_kid not_a_public_key invalid_signature no_nonce_check : Error
  id_error : Id.Error → Error
  key_error : EdX25519.Error → Error
  nonce_error : Mem.Error → Error

-- `a.Header()`.
unfoldable pub header : Auth → Str
header a = a.auth_kid ++ codes ":" ++ a.sig

-- What is signed of a request.
unfoldable pub signed_text : Str → Str → Str → Str
signed_text method url content_hash = method ++ codes "," ++ url ++ codes "," ++ content_hash

-- `td * -1` of an `int64`.
unfoldable pub negate : ℤ → ℤ
negate (pos zero) = pos 0
negate (pos (suc n)) = negsuc n
negate (negsuc n) = if n == max_int then negsuc max_int else pos (n + 1)

-- `30 * time.Minute` in nanoseconds.
abbrev pub half_hour : ℤ
half_hour = pos (30 * 60 * 1_000_000_000)

-- Whether two times are more than half an hour apart.
unfoldable pub is_too_far : Time → Time → Bool
is_too_far now tm =
    let td = time_sub now tm in int_ltb half_hour (if int_ltb td (pos 0) then negate td else td)

-- The two fields of the header.
unfoldable pub fields_of : Str → Result Error (Str × Str)
fields_of auth = elim (split auth b':') [
  | [] ↦ err too_many_fields
  | kid ∷ rest ↦ elim rest [
    | [] ↦ err too_many_fields
    | sig ∷ more ↦ elim more [ [] ↦ ok (kid, sig) | _ ∷ _ ↦ err too_many_fields ]
  ]
]

module _ (c : Crypto) where
  -- `ContentHash(b)`.
  unfoldable pub content_hash_of : Str → Str
  content_hash_of b = if length b == 0 then [] else Base64.encode (c.sha256 b)

  -- `newAuthWithURL(method, ur, contentHash, key)`.
  unfoldable pub new_auth_with_url : Str → Url → Str → EdX25519.Key → Auth
  new_auth_with_url method ur content_hash key =
      let bytes = signed_text method ur.text content_hash in
      record {
        auth_kid = key.public.id;
        auth_method = method;
        auth_url = ur;
        sig = Base64.encode (EdX25519.sign_detached c key bytes);
        bytes_to_sign = bytes;
      }

module _ (c : Crypto) (urls : Urls) (x : Base62) where
  -- `authURL(urs, tm, nonce)`.
  unfoldable pub auth_url_for : Str → Time → Str → Result Error Url
  auth_url_for urs tm nonce = do
    fail_if (ltb (length nonce) 16) nonce_too_short
    elim (urls.parse urs) [
      | none ↦ err invalid_url
      | some ur ↦ ok (
          urls.set_query ur
            ((codes "nonce", x.encode nonce) ∷ (codes "ts", itoa (millis_of tm)) ∷ []))
    ]

  -- `newAuth(method, urs, contentHash, tm, nonce, key)`; `NewAuth` gives it 20 random bytes.
  unfoldable pub new_auth : Str → Str → Str → Time → Str → EdX25519.Key → Result Error Auth
  new_auth method urs content_hash tm nonce key = do
    ur ← auth_url_for urs tm nonce
    ok (new_auth_with_url c method ur content_hash key)

module _ (c : Crypto) (urls : Urls) (x : Base62) (decode64 : Str → Option Str) where
  -- `Parse nonce`.
  unfoldable pub nonce_of : Url → Result Error Str
  nonce_of url = do
    fail_if (str_eq (url.query (codes "nonce")) []) nonce_missing
    elim (x.decode (url.query (codes "nonce"))) [
      | none ↦ err nonce_invalid
      | some nb ↦ do fail_if (ltb (length nb) 16) nonce_too_short; ok (url.query (codes "nonce"))
    ]

  -- `Check timestamp`.
  unfoldable pub timestamp_of : Url → Time → Result Error Time
  timestamp_of url now = do
    fail_if (str_eq (url.query (codes "ts")) []) timestamp_missing
    elim (parse_int (url.query (codes "ts"))) [
      | none ↦ err timestamp_invalid
      | some i ↦ do fail_if (is_too_far now (parse_millis i)) timestamp_too_far; ok (parse_millis i)
    ]

  -- The key of the header, whose signature is that of the text.
  unfoldable pub check_signature : Str → Str → Str → Result Error Str
  check_signature kid auth text = do
    (hkid, hsig) ← fields_of auth
    akid ← map_err id_error (parse_id hkid)
    fail_if (not (str_eq kid []) && not (str_eq akid kid)) invalid_kid
    spk ← map_err (λ _. not_a_public_key) (EdX25519.public_key_from_id akid)
    elim (decode64 hsig) [
      | none ↦ err invalid_signature
      | some b ↦ do map_err key_error (EdX25519.verify_detached c spk b text); ok akid
    ]

  -- `Authorize(auth)` up to the check of the nonce.
  unfoldable pub check_request : {S : Type 0} → AuthRequest S → Result Error AuthResult
  check_request r = elim (urls.parse r.url) [
    | none ↦ err invalid_url
    | some url ↦ do
      fail_if (not (str_eq url.text r.url)) invalid_url_parse
      nonce ← nonce_of url
      tm ← timestamp_of url r.now
      akid ← check_signature r.kid r.auth (signed_text r.method url.text r.content_hash)
      ok (record { result_kid = akid; result_url = url; nonce = nonce; timestamp = tm })
  ]

  -- `Authorize(auth)`, with the store of the nonces.
  unfoldable pub authorize : {S : Type 0} → S → AuthRequest S → Result Error AuthResult × S
  authorize s r = elim (check_request r) [
    | err e ↦ (err e, s)
    | ok result ↦ elim r.nonce_check [
      | none ↦ (err no_nonce_check, s)
      | some check ↦ elim (check s result.nonce).0 [
        | err e ↦ (err (nonce_error e), (check s result.nonce).1)
        | ok _ ↦ (ok result, (check s result.nonce).1)
      ]
    ]
  ]
