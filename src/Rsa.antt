-- ===== src/Rsa.antt =====
-- rsa.go: RSA keys, whose numbers and bytes are parameters.
use keys.Common.{◌≡◌, Option, none, some, Str, codes, Result, ok, err, ◌>>=◌, map_err}
use keys.Crypto.{Crypto}
use keys.Id
use keys.Id.{new_id}

-- What the code uses of `crypto/rsa` and `crypto/x509`, over their private and public keys.
pub record Pkcs1 (R P : Type 0) : Type 0 where
  pub public_part : R → P
  pub parse_private : Str → Option R
  pub marshal_private : R → Str
  pub parse_public : Str → Option P
  pub marshal_public : P → Str

-- What the packages document: what is written is read back.
pub record IsPkcs1 {R P : Type 0} (x : Pkcs1 R P) : Type 0 where
  pub private_back : (k : R) → x.parse_private (x.marshal_private k) ≡ some k
  pub public_back : (k : P) → x.parse_public (x.marshal_public k) ≡ some k

pub record RsaPublicKey (P : Type 0) : Type 0 where
  pub rsa_id : Str
  pub pk : P

pub record RsaKey (R P : Type 0) : Type 0 where
  pub rsa_private : R
  pub rsa_public : RsaPublicKey P

pub data Error : Type 0 where
  parse_failed : Error
  must_id : Id.Error → Error

abbrev pub rsa_key_hrp : Str
rsa_key_hrp = codes "rsa"

module _ (c : Crypto) {R P : Type 0} (x : Pkcs1 R P) where
  -- `keyIDFromRSA(k)`, which panics if there is no identifier.
  unfoldable pub key_id_from_rsa : P → Result Error Str
  key_id_from_rsa k = map_err must_id (new_id rsa_key_hrp (c.sha256 (x.marshal_public k)))

  -- `NewRSAPublicKey(pk)`.
  unfoldable pub new_rsa_public_key : P → Result Error (RsaPublicKey P)
  new_rsa_public_key k = do id ← key_id_from_rsa k; ok (record { rsa_id = id; pk = k })

  -- `NewRSAKey(k)`.
  unfoldable pub new_rsa_key : R → Result Error (RsaKey R P)
  new_rsa_key k = do
    public ← new_rsa_public_key (x.public_part k)
    ok (record { rsa_private = k; rsa_public = public })

  -- `NewRSAKeyFromBytes(privateKey)`.
  unfoldable pub rsa_key_from_bytes : Str → Result Error (RsaKey R P)
  rsa_key_from_bytes b = elim (x.parse_private b) [
    | none ↦ err parse_failed
    | some k ↦ new_rsa_key k
  ]

  -- `NewRSAPublicKeyFromBytes(publicKey)`.
  unfoldable pub rsa_public_key_from_bytes : Str → Result Error (RsaPublicKey P)
  rsa_public_key_from_bytes b = elim (x.parse_public b) [
    | none ↦ err parse_failed
    | some k ↦ new_rsa_public_key k
  ]
