-- ===== src/X25519.antt =====
-- x25519.go and edx25519.go: X25519 keys, and the EdX25519 keys to which they belong. A panic on an
-- identifier that cannot be made is an error.
pub mod Convert
pub mod Match
mod Examples
use keys.Common.{
  ℕ, [], Bool, true, false, not, ◌&&◌, ◌==◌, Str, str_eq, length, if◌then◌else◌, Result, ok, err,
  ◌>>=◌, ◌>>◌, fail_if, map_err,
}
use keys.Bech32
use keys.EdX25519
use keys.Id
use keys.Id.{new_id, edx25519_key_hrp, x25519_key_hrp, is_edx25519, is_x25519}
use keys.X25519.Convert.{Curve, public_key_to_curve, private_key_to_curve}

pub data Error : Type 0 where
  empty_id invalid_box_public_key_bytes unrecognized_key_type : Error
  unable_to_convert_key not_32_bytes : Error
  invalid_id : Bech32.Error → Error
  must_id : Id.Error → Error
  key_error : EdX25519.Error → Error

pub record PublicKey : Type 0 where
  pub id : Str
  pub public_key : Str

pub record Key : Type 0 where
  pub key_id : Str
  pub private_key : Str
  pub public : PublicKey

-- `NewX25519PublicKey(b)`.
unfoldable pub new_public_key : Str → Result Error PublicKey
new_public_key b = do
  id ← map_err must_id (new_id x25519_key_hrp b)
  ok (record { id = id; public_key = b })

module _ (c : Curve) where
  -- `NewX25519KeyFromPrivateKey(privateKey)`.
  unfoldable pub new_key : Str → Result Error Key
  new_key b = do
    id ← map_err must_id (new_id x25519_key_hrp (c.scalar_base_mult b))
    public ← new_public_key (c.scalar_base_mult b)
    ok (record { key_id = id; private_key = b; public = public })

  -- `k.X25519PublicKey()` of an EdX25519 public key.
  unfoldable pub convert_public_key : EdX25519.PublicKey → Result Error PublicKey
  convert_public_key k = do
    fail_if (not (length (public_key_to_curve c k.public_key) == 32)) unable_to_convert_key
    new_public_key (public_key_to_curve c k.public_key)

  -- `k.X25519Key()` of an EdX25519 key.
  unfoldable pub convert_key : EdX25519.Key → Result Error Key
  convert_key k = do
    fail_if (not (length (private_key_to_curve c k.private_key) == 32)) unable_to_convert_key
    new_key (private_key_to_curve c k.private_key)

  -- `NewX25519PublicKeyFromID(id)`.
  unfoldable pub public_key_from_id : Str → Result Error PublicKey
  public_key_from_id id = do
    fail_if (str_eq id []) empty_id
    (hrp, b) ← map_err invalid_id (Bech32.decode id)
    elim (str_eq hrp x25519_key_hrp) [
      | true ↦ do fail_if (not (length b == 32)) invalid_box_public_key_bytes; new_public_key b
      | false ↦ elim (str_eq hrp edx25519_key_hrp) [
        | true ↦ do spk ← map_err key_error (EdX25519.public_key_from_id id); convert_public_key spk
        | false ↦ err unrecognized_key_type
      ]
    ]

  -- Whether an X25519 identifier is that of an EdX25519 one; an error is a panic.
  unfoldable pub is_counterpart : Str → Str → Result Error Bool
  is_counterpart ed x = elim (EdX25519.public_key_from_id ed) [
    | err _ ↦ ok false
    | ok spk ↦ do bpk ← convert_public_key spk; ok (str_eq x bpk.id)
  ]

  -- `X25519Match(expected, kid)`.
  unfoldable pub x25519_match : Str → Str → Result Error Bool
  x25519_match expected kid =
      if str_eq expected kid
      then ok true
      else if is_edx25519 expected && is_x25519 kid
      then is_counterpart expected kid
      else if is_edx25519 kid && is_x25519 expected
      then is_counterpart kid expected
      else ok false
