-- ===== src/Encoding/Parse.antt =====
-- encoding/encode.go and encoding/options.go: the names of the encodings, and which options an
-- encoding takes.
use keys.Common.{
  List, [], ◌∷◌, Bool, true, false, ◌||◌, not, Str, str_eq, codes, if◌then◌else◌, Result, ok, err,
  ◌≡◌, ◌↔◌, refl, str_eq_iff, arith, ap, ◌∙◌,
}

pub data Encoding : Type 0 where
  no_encoding hex base32 base58 base62 base64 saltpack bip39 : Encoding

-- The text of an encoding.
unfoldable pub text_of : Encoding → Str
text_of no_encoding = []
text_of hex = codes "base16"
text_of base32 = codes "base32"
text_of base58 = codes "base58"
text_of base62 = codes "base62"
text_of base64 = codes "base64"
text_of saltpack = codes "saltpack"
text_of bip39 = codes "bip39"

-- `errors.Errorf` of an unknown encoding, and of an option that the encoding does not take.
pub data Error : Type 0 where
  invalid_encoding : Str → Error
  invalid_option : Str → Error

-- `Parse(s)`.
unfoldable pub parse : Str → Result Error Encoding
parse s =
    if str_eq s (codes "base16")
    then ok hex
    else if str_eq s (codes "base32")
    then ok base32
    else if str_eq s (codes "base58")
    then ok base58
    else if str_eq s (codes "base62")
    then ok base62
    else if str_eq s (codes "base64")
    then ok base64
    else if str_eq s (codes "saltpack")
    then ok saltpack
    else if str_eq s (codes "bip39")
    then ok bip39
    else if str_eq s []
    then ok no_encoding
    else err (invalid_encoding s)

-- `ParseOr(s, d)`.
unfoldable pub parse_or : Str → Encoding → Result Error Encoding
parse_or s d = if str_eq s [] then ok d else parse s

-- `e == enc` of encodings, which are strings.
unfoldable pub same_encoding : Encoding → Encoding → Bool
unfolding text_of
same_encoding a b = str_eq (text_of a) (text_of b)

unfoldable pub contains_encoding : List Encoding → Encoding → Bool
unfolding same_encoding
contains_encoding [] enc = false
contains_encoding (e ∷ encs) enc = same_encoding e enc || contains_encoding encs enc

pub record EncodeOptions : Type 0 where
  pub no_padding : Bool
  pub lowercase : Bool

pub record EncodeOption : Type 0 where
  pub apply : EncodeOptions → EncodeOptions
  pub encodings : List Encoding
  pub name : Str

unfoldable pub without_padding : EncodeOption
without_padding = record {
  apply = λ o. record o { no_padding = true };
  encodings = base64 ∷ base32 ∷ [];
  name = codes "no-padding";
}

unfoldable pub in_lowercase : EncodeOption
in_lowercase = record {
  apply = λ o. record o { lowercase = true };
  encodings = base32 ∷ [];
  name = codes "lowercase";
}

-- The loop of `newEncodeOptions`.
unfoldable pub apply_encode_options :
    List EncodeOption → Encoding → EncodeOptions → Result Error EncodeOptions
apply_encode_options [] enc options = ok options
apply_encode_options (o ∷ os) enc options =
    let rest = apply_encode_options os enc (o.apply options) in
    if not (contains_encoding o.encodings enc) then err (invalid_option o.name) else rest

-- `newEncodeOptions(opts, encoding)`.
unfoldable pub new_encode_options : List EncodeOption → Encoding → Result Error EncodeOptions
new_encode_options opts enc =
    apply_encode_options opts enc (record { no_padding = false; lowercase = false })

of_parse : (s : Str) (e : Encoding) → parse s ≡ ok e → s ≡ text_of e
unfolding parse text_of
of_parse s e h = ground (
  arith,
  str_eq_iff s (codes "base16"),
  str_eq_iff s (codes "base32"),
  str_eq_iff s (codes "base58"),
  str_eq_iff s (codes "base62"),
  str_eq_iff s (codes "base64"),
  str_eq_iff s (codes "saltpack"),
  str_eq_iff s (codes "bip39"),
  str_eq_iff s [],
)

parse_text : (e : Encoding) → parse (text_of e) ≡ ok e
unfolding parse text_of str_eq
parse_text no_encoding = refl
parse_text hex = refl
parse_text base32 = refl
parse_text base58 = refl
parse_text base62 = refl
parse_text base64 = refl
parse_text saltpack = refl
parse_text bip39 = refl

-- `Parse` reads a text as an encoding exactly when it is the text of that encoding.
pub parse-text_of : (s : Str) (e : Encoding) → (parse s ≡ ok e) ↔ (s ≡ text_of e)
parse-text_of s e = (of_parse s e, λ h. ap parse h ∙ parse_text e)
