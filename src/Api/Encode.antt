-- ===== src/Api/Encode.antt =====
-- api/encode.go: a key as text under a password. msgpack and the unescaping of HTML are parameters.
use keys.Common.{
  Option, none, some, true, false, not, ◌==◌, Str, str_eq, codes, length, Result, ok, err, ◌>>=◌,
  ◌>>◌, fail_if, map_err,
}
use keys.EdX25519
use keys.Encoding.Saltpack.{Base62, encode_saltpack, decode_saltpack}
use keys.Secretbox.{Box, encrypt_with_password, decrypt_with_password}
use keys.X25519
use keys.X25519.Convert.{Curve}
use keys.Api
use keys.Api.{ApiKey, made_of, edx25519_type, x25519_type, check, bytes_or_nil}

-- `msgpack.Marshal` and `msgpack.Unmarshal` of a key, `none` for an error.
pub record Msgpack : Type 0 where
  pub marshal : ApiKey → Option Str
  pub unmarshal : Str → Option ApiKey

-- The last two stand for a panic.
pub data Error : Type 0 where
  no_key marshal_failed saltpack_failed : Error
  failed_to_decode failed_to_unmarshal invalid_number_of_bytes invalid_brand : Error
  invalid_key : Api.Error → Error
  edx25519_error : EdX25519.Error → Error
  x25519_error : X25519.Error → Error

abbrev pub key_brand : Str
key_brand = codes "KEY"

abbrev pub edx25519_brand : Str
edx25519_brand = codes "EDX25519 KEY"

abbrev pub x25519_brand : Str
x25519_brand = codes "X25519 KEY"

module _ (box : Box) (mp : Msgpack) (x : Base62) where
  -- `EncodeKey(key, password)`, with the salt and the nonce of the encryption.
  unfoldable pub encode_key : Str → Str → Option ApiKey → Str → Result Error Str
  encode_key salt nonce none password = err no_key
  encode_key salt nonce (some key) password = elim (mp.marshal key) [
    | none ↦ err marshal_failed
    | some b ↦
        elim (encode_saltpack x (encrypt_with_password box salt nonce b password) key_brand) [
          | none ↦ err saltpack_failed
          | some msg ↦ ok msg
        ]
  ]

module _ (box : Box) (mp : Msgpack) (c : Curve) where
  -- The key of decrypted bytes, by the brand of the message.
  unfoldable pub key_of_brand : Str → Str → Result Error ApiKey
  key_of_brand brand b = elim (str_eq brand key_brand) [
    | true ↦ elim (mp.unmarshal b) [
      | none ↦ err failed_to_unmarshal
      | some key ↦ do map_err invalid_key (check key); ok key
    ]
    | false ↦ elim (str_eq brand edx25519_brand) [
      | true ↦ do
        fail_if (not (length b == 64)) invalid_number_of_bytes
        sk ← map_err edx25519_error (EdX25519.set_private_key b)
        ok (made_of sk.public.id edx25519_type (some sk.private_key) sk.public.public_key)
      | false ↦ elim (str_eq brand x25519_brand) [
        | true ↦ do
          fail_if (not (length b == 32)) invalid_number_of_bytes
          bk ← map_err x25519_error (X25519.new_key c b)
          ok (made_of bk.key_id x25519_type (some bk.private_key) bk.public.public_key)
        | false ↦ err invalid_brand
      ]
    ]
  ]

module _ (box : Box) (mp : Msgpack) (c : Curve) (x : Base62) (unescape : Str → Str) where
  -- `DecodeKey(msg, password)`.
  unfoldable pub decode_key : Str → Str → Result Error ApiKey
  decode_key msg password = elim (decode_saltpack x unescape msg false) [
    | err _ ↦ err failed_to_decode
    | ok (decoded, brand) ↦ elim (decrypt_with_password box decoded password) [
      | err _ ↦ err failed_to_decode
      | ok b ↦ key_of_brand box mp c brand b
    ]
  ]
