-- ===== src/Encoding/Codecs.antt =====
-- encoding/encode.go and encoding/bip39.go: bytes as text in each encoding. The encodings of other
-- packages are parameters. Texts are ASCII.
use keys.Common.{
  List, [], ◌∷◌, ◌++◌, Option, none, some, Bool, true, false, ◌==◌, Str, length, if◌then◌else◌,
  Result, ok, err, ◌≡◌, ◌≢◌, refl, ap,
}
use keys.Bech32.Case.{to_lower}
use keys.Common.Split.{join}
use keys.Encoding.Base64
use keys.Encoding.Parse
use keys.Encoding.Parse.{
  Encoding, EncodeOption, new_encode_options, no_encoding, hex, base32, base58, base62, base64,
  saltpack, bip39,
}
use keys.Encoding.Saltpack.{
  Base62, IsBase62, encode_words, decode_words, is_space, trim_space, decode_words-encode_words,
}

-- An encoder, and its decoder, `none` for an error.
pub record Codec : Type 0 where
  pub encoder : Str → Str
  pub decoder : Str → Option Str

-- The encodings of other packages.
pub record Codecs : Type 0 where
  pub hex_codec : Codec
  -- Base32 with padding in upper case, and without padding.
  pub base32_codec : Codec
  pub raw_base32 : Str → Str
  pub base58_codec : Codec
  pub base62_codec : Base62
  -- The decoder of Base64 with padding, and the encoder without.
  pub decode_base64 : Str → Option Str
  pub raw_base64 : Str → Str
  -- `bip39.NewMnemonic` and `bip39.MnemonicToByteArray` of a phrase.
  pub new_mnemonic : Str → Option Str
  pub mnemonic_bytes : Str → Option Str

-- What the packages document: what was encoded of the bytes is decoded.
pub record AreCodecs (x : Codecs) (b : Str) : Type 0 where
  pub hex_back : x.hex_codec.decoder (x.hex_codec.encoder b) ≡ some b
  pub base32_back : x.base32_codec.decoder (x.base32_codec.encoder b) ≡ some b
  pub base58_back : x.base58_codec.decoder (x.base58_codec.encoder b) ≡ some b
  pub base62_laws : IsBase62 x.base62_codec
  pub base64_back : x.decode_base64 (Base64.encode b) ≡ some b

pub data Error : Type 0 where
  option_error : Parse.Error → Error
  unrecognized_encoding unknown_encoding decode_failed saltpack_panic : Error
  bip39_failed invalid_phrase : Error

-- `strings.Fields(s)`, with the word so far.
unfoldable pub fields : Str → Str → List Str
fields [] word = if length word == 0 then [] else word ∷ []
fields (c ∷ s) word = elim (is_space c) [
  | false ↦ fields s (word ++ c ∷ [])
  | true ↦ let rest = fields s [] in if length word == 0 then rest else word ∷ rest
]

-- `sanitizePhrase(phrase)`.
unfoldable pub sanitize_phrase : Str → Str
sanitize_phrase phrase = join (fields (trim_space (to_lower phrase)) []) b' '

-- What a decoder gives, or an error.
unfoldable pub decoded_or : Error → Option Str → Result Error Str
decoded_or e none = err e
decoded_or e (some b) = ok b

module _ (x : Codecs) where
  -- `PhraseToBytes(phrase, sanitize)`.
  unfoldable pub phrase_to_bytes : Str → Bool → Result Error Str
  phrase_to_bytes phrase sanitize =
      elim (x.mnemonic_bytes (if sanitize then sanitize_phrase phrase else phrase)) [
        | none ↦ err invalid_phrase
        | some b ↦ if length b == 32 then ok b else err invalid_phrase
      ]

  -- `Encode(b, encoding, opt...)`.
  unfoldable pub encode_text : Str → Encoding → List EncodeOption → Result Error Str
  encode_text b enc opt = elim (new_encode_options opt enc) [
    | err e ↦ err (option_error e)
    | ok opts ↦ elim enc [
      | base64 ↦ ok (if opts.no_padding then x.raw_base64 b else Base64.encode b)
      | base62 ↦ ok (x.base62_codec.encode b)
      | base58 ↦ ok (x.base58_codec.encoder b)
      | base32 ↦
          let out = if opts.no_padding then x.raw_base32 b else x.base32_codec.encoder b in
          ok (if opts.lowercase then to_lower out else out)
      | hex ↦ ok (x.hex_codec.encoder b)
      | saltpack ↦ elim (encode_words x.base62_codec b) [
        | none ↦ err saltpack_panic
        | some s ↦ ok s
      ]
      | bip39 ↦ decoded_or bip39_failed (x.new_mnemonic b)
      | no_encoding ↦ err unrecognized_encoding
    ]
  ]

  -- `Decode(s, encoding)`.
  unfoldable pub decode_text : Str → Encoding → Result Error Str
  decode_text s base64 = decoded_or decode_failed (x.decode_base64 s)
  decode_text s base62 = decoded_or decode_failed (x.base62_codec.decode s)
  decode_text s base58 = decoded_or decode_failed (x.base58_codec.decoder s)
  decode_text s base32 = decoded_or decode_failed (x.base32_codec.decoder s)
  decode_text s hex = decoded_or decode_failed (x.hex_codec.decoder s)
  decode_text s saltpack = decoded_or decode_failed (decode_words x.base62_codec s)
  decode_text s bip39 = phrase_to_bytes s true
  decode_text s no_encoding = err unknown_encoding

module _ (x : Codecs) (b : Str) (laws : AreCodecs x b) where
  -- For each encoding but BIP39 and the empty one, `Encode` of bytes without options succeeds, and
  -- `Decode` reads them back, if the decoders of other packages read these bytes back, and Base62
  -- has the characters of its alphabet.
  pub decode_text-encode_text :
      (enc : Encoding)
      → enc ≢ no_encoding
      → enc ≢ bip39
      → (s : Str) × (encode_text x b enc [] ≡ ok s) × (decode_text x s enc ≡ ok b)
  unfolding encode_text decode_text decoded_or new_encode_options Parse.apply_encode_options
  decode_text-encode_text no_encoding given _ = absurd (given refl)
  decode_text-encode_text bip39 _ given = absurd (given refl)
  decode_text-encode_text hex _ _ =
      (x.hex_codec.encoder b, refl, ap (decoded_or decode_failed) laws.hex_back)
  decode_text-encode_text base32 _ _ =
      (x.base32_codec.encoder b, refl, ap (decoded_or decode_failed) laws.base32_back)
  decode_text-encode_text base58 _ _ =
      (x.base58_codec.encoder b, refl, ap (decoded_or decode_failed) laws.base58_back)
  decode_text-encode_text base62 _ _ = (
    x.base62_codec.encode b,
    refl,
    ap (decoded_or decode_failed) (laws.base62_laws.decode-encode_base62 b),
  )
  decode_text-encode_text base64 _ _ =
      (Base64.encode b, refl, ap (decoded_or decode_failed) laws.base64_back)
  decode_text-encode_text saltpack _ _ =
      let (s, written, read) = decode_words-encode_words x.base62_codec b laws.base62_laws in
      (s, rw (encode_text, written) refl, ap (decoded_or decode_failed) read)
