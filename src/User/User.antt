-- ===== src/User/User.antt =====
-- user/user.go and user/result.go: users of a service, and how a user's message and sigchain
-- statement are made and checked. What `encoding/json` reads is a parameter.
use keys.Common.{
  List, [], ◌∷◌, ◌++◌, Option, none, some, true, false, not, ◌==◌, Str, str_eq, codes, length,
  if◌then◌else◌, Result, ok, err, ◌>>=◌, ◌>>◌, fail_if, map_err,
}
use keys.Common.Int.{ℤ, pos, int_eq, int_ltb, itoa}
use keys.Tsutil.{Time}
use keys.Crypto.{Crypto}
use keys.EdX25519
use keys.Encoding.Saltpack
use keys.Encoding.Saltpack.{Base62, encode_saltpack, decode_saltpack}
use keys.Id
use keys.Id.{parse_id}
use keys.Json
use keys.Json.{Entry, string_entry, int_entry}
use keys.Statement.{Statement, bytes_of}
use keys.Sigchain
use keys.Sigchain.{Sigchain, find_last}
use keys.User.Validate
use keys.User.Validate.{Service, lookup_service, normalize_name, validate_name}
use keys.User.Validate.Url.{Urls, validate_url}

pub record User : Type 0 where
  pub name : Str
  pub kid : Str
  pub seq : ℤ
  pub service : Str
  pub url : Str

-- The fields of a user in JSON, `userFormat`.
pub record UserFormat : Type 0 where
  pub format_kid : Str
  pub format_name : Str
  pub format_seq : ℤ
  pub format_service : Str
  pub format_url : Str

-- One constructor for each place that fails; `no_text` is a text that `BreakString` does not give.
pub data Error : Type 0 where
  id_error : Id.Error → Error
  service_error : Validate.Error → Error
  json_error : Json.Error → Error
  chain_error : Sigchain.Error → Error
  decode_error : Saltpack.Error → Error
  key_error : EdX25519.Error → Error
  name_is_empty invalid_seq already_set seq_mismatch no_text invalid_json : Error
  no_name no_kid no_service kid_mismatch service_mismatch wrong_name : Error

-- `u.ID()`.
unfoldable pub user_id : User → Str
user_id u = u.name ++ codes "@" ++ u.service

-- `u.String()`.
unfoldable pub user_text : User → Str
user_text u =
    let s = u.name ++ codes "@" ++ u.service ++ codes "!" ++ u.kid in
    let t = if int_eq u.seq (pos 0) then s else s ++ codes "-" ++ itoa u.seq in
    if str_eq u.url [] then t else t ++ codes "#" ++ u.url

-- The entries that `Bytes` writes.
unfoldable pub user_entries : User → List Entry
user_entries u =
    string_entry (codes "k") u.kid
    ∷ string_entry (codes "n") u.name
    ∷ ((if int_eq u.seq (pos 0) then [] else int_entry (codes "sq") u.seq ∷ [])
        ++ (string_entry (codes "sr") u.service
            ∷ (if str_eq u.url [] then [] else string_entry (codes "u") u.url ∷ [])))

-- `u.Bytes()`, which `MarshalJSON` returns.
unfoldable pub user_bytes : User → Result Error Str
user_bytes u = map_err json_error (Json.marshal (user_entries u))

-- `validateServiceAndName(service, name)`.
unfoldable pub validate_service_and_name : Service → Str → Result Error Unit
validate_service_and_name service name = do
  fail_if (length name == 0) name_is_empty
  map_err service_error (validate_name service name)

-- `NewForSigning(kid, service, name)`.
unfoldable pub new_for_signing : Str → Str → Str → Result Error User
new_for_signing kid service name = do
  svc ← map_err service_error (lookup_service service)
  validate_service_and_name svc (normalize_name svc name)
  ok (record {
    name = normalize_name svc name;
    kid = kid;
    seq = pos 0;
    service = service;
    url = [];
  })

-- What `Verify` asks of the user in the message.
unfoldable pub check_same : User → User → Result Error Unit
check_same u dec = do
  fail_if (str_eq dec.name []) no_name
  fail_if (str_eq dec.kid []) no_kid
  fail_if (str_eq dec.service []) no_service
  fail_if (not (str_eq dec.kid u.kid)) kid_mismatch
  fail_if (not (str_eq dec.service u.service)) service_mismatch
  fail_if (not (str_eq dec.name u.name)) wrong_name

module _ (urls : Urls) where
  -- `u.Validate()`.
  unfoldable pub validate : User → Result Error Unit
  validate u = do
    _ ← map_err id_error (parse_id u.kid)
    service ← map_err service_error (lookup_service u.service)
    validate_service_and_name service u.name
    map_err service_error (validate_url urls service u.name u.url)

  -- `newUser(kid, service, name, urs)`.
  unfoldable pub new_user : Str → Str → Str → Str → Result Error User
  new_user kid service name urs = do
    validate (record { name = name; kid = kid; seq = pos 0; service = service; url = urs })
    ok (record { name = name; kid = kid; seq = pos 0; service = service; url = urs })

  -- `New(kid, service, name, urs, seq)`.
  unfoldable pub new : Str → Str → Str → Str → ℤ → Result Error User
  new kid service name urs seq = do
    usr ← new_user kid service name urs
    fail_if (int_ltb seq (pos 1)) invalid_seq
    ok (record usr { seq = seq })

module _ (unmarshal : Str → Option UserFormat) where
  -- `u.UnmarshalJSON(b)`, and `json.Unmarshal(b, &usr)`.
  unfoldable pub user_from : Str → Result Error User
  user_from b = elim (unmarshal b) [
    | none ↦ err invalid_json
    | some f ↦ do
      kid ← map_err id_error (parse_id f.format_kid)
      ok (record {
        name = f.format_name;
        kid = kid;
        seq = f.format_seq;
        service = f.format_service;
        url = f.format_url;
      })
  ]

module _ (x : Base62) (c : Crypto) where
  -- `u.Sign(key)`.
  unfoldable pub sign_user : User → EdX25519.Key → Result Error Str
  sign_user u key = do
    b ← user_bytes u
    elim (encode_saltpack x (c.sign key.private_key b) []) [ none ↦ err no_text | some s ↦ ok s ]

  -- `u.Verify(msg)`.
  unfoldable pub verify_user : (Str → Option UserFormat) → User → Str → Result Error Unit
  verify_user unmarshal u msg = do
    (b, _) ← map_err decode_error (decode_saltpack x (λ s. s) msg false)
    spk ← map_err key_error (EdX25519.public_key_from_id u.kid)
    bout ← map_err key_error (EdX25519.verify c spk b)
    dec ← user_from unmarshal bout
    check_same u dec

module _ (urls : Urls) (unmarshal : Str → Option UserFormat) where
  -- `FindInSigchain(sc)`; `none` is nil, also for a user that is not valid.
  unfoldable pub find_in_sigchain : Sigchain → Result Error (Option User)
  find_in_sigchain sc = elim (find_last sc (codes "user")) [
    | none ↦ ok none
    | some st ↦ do
      usr ← user_from unmarshal (bytes_of st.contents)
      elim (validate urls usr) [ err _ ↦ ok none | ok _ ↦ ok (some usr) ]
  ]

  -- `NewSigchainStatement(sc, user, sk, ts)` of a user that is not nil.
  unfoldable pub new_user_statement :
      Crypto → Sigchain → User → EdX25519.Key → Time → Result Error Statement
  new_user_statement c sc u sk ts = do
    validate urls u
    existing ← find_in_sigchain sc
    fail_if (elim existing [ none ↦ false | some _ ↦ true ]) already_set
    b ← user_bytes u
    st ← map_err chain_error (Sigchain.new_sigchain_statement c sc (some b) sk (codes "user") ts)
    fail_if (not (int_eq st.seq u.seq)) seq_mismatch
    ok st
