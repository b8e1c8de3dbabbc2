-- ===== src/EdX25519.antt =====
-- edx25519.go: EdX25519 keys, signing and verifying.
pub mod Laws
use keys.Common.{
  ℕ, List, [], ◌∷◌, ◌++◌, Bool, true, false, not, ◌==◌, Str, str_eq, codes, length, take, drop, ltb,
  if◌then◌else◌, Result, ok, err, ◌>>=◌, ◌>>◌, fail_if, map_err,
}
use keys.Bech32
use keys.Crypto.{Crypto, sign_overhead}
use keys.Id
use keys.Id.{new_id, edx25519_key_hrp}

pub data Error : Type 0 where
  empty_id : Error
  invalid_id : Bech32.Error → Error
  must_id : Id.Error → Error
  invalid_key_type invalid_public_key_bytes invalid_private_key_length : Error
  not_enough_data verify_failed invalid_sig_length no_bytes : Error

pub record PublicKey : Type 0 where
  pub id : Str
  pub public_key : Str

pub record Key : Type 0 where
  pub private_key : Str
  pub public : PublicKey

-- `NewEdX25519PublicKey(b)`, which panics if the bytes have no identifier.
unfoldable pub new_public_key : Str → Result Error PublicKey
new_public_key b = do
  id ← map_err must_id (new_id edx25519_key_hrp b)
  ok (record { id = id; public_key = b })

-- `k.setPrivateKey(b)`: the public key is the second half.
unfoldable pub set_private_key : Str → Result Error Key
set_private_key b = do
  fail_if (not (length b == 64)) invalid_private_key_length
  fail_if (not (length (drop 32 b) == 32)) invalid_public_key_bytes
  public ← new_public_key (drop 32 b)
  ok (record { private_key = b; public = public })

-- `NewEdX25519PublicKeyFromID(id)`.
unfoldable pub public_key_from_id : Str → Result Error PublicKey
public_key_from_id id = do
  fail_if (str_eq id []) empty_id
  (hrp, b) ← map_err invalid_id (Bech32.decode id)
  fail_if (not (str_eq hrp edx25519_key_hrp)) invalid_key_type
  fail_if (not (length b == 32)) invalid_public_key_bytes
  ok (record { id = id; public_key = b })

module _ (c : Crypto) where
  -- `k.Verify(b)`: the message without its signature.
  unfoldable pub verify : PublicKey → Str → Result Error Str
  verify k b = do
    fail_if (ltb (length b) sign_overhead) not_enough_data
    fail_if (not (c.sign_open k.public_key b)) verify_failed
    ok (drop sign_overhead b)

  -- `k.VerifyDetached(sig, b)`.
  unfoldable pub verify_detached : PublicKey → Str → Str → Result Error Unit
  verify_detached k sig b = do
    fail_if (not (length sig == sign_overhead)) invalid_sig_length
    fail_if (length b == 0) no_bytes
    _ ← verify k (sig ++ b)
    ok tt

  -- `k.SignDetached(b)`.
  unfoldable pub sign_detached : Key → Str → Str
  sign_detached k b = take sign_overhead (c.sign k.private_key b)
