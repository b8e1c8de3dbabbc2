-- ===== src/Api.antt =====
-- api/key.go and api/as.go: the key of the API, and the concrete keys that it stands for.
pub mod Back
pub mod Encode
pub mod Decoded
mod Examples
use keys.Common.{
  List, [], ◌∷◌, ◌++◌, Option, none, some, Bool, true, false, not, ◌&&◌, ◌==◌, Str, str_eq, codes,
  length, if◌then◌else◌, Result, ok, err, ◌>>=◌, ◌>>◌, fail_if, map_err,
}
use keys.Common.Int.{ℤ, pos}
use keys.Crypto.{Crypto}
use keys.EdX25519
use keys.Id
use keys.Id.{KeyType, parse_id, type_of, public_of, edx25519, x25519, unknown}
use keys.Rsa
use keys.Rsa.{Pkcs1, RsaKey, RsaPublicKey, rsa_key_from_bytes, rsa_public_key_from_bytes}
use keys.X25519
use keys.X25519.Convert.{Curve}

-- `api.Key`. A nil `Private` is `none`; a nil `Public` is empty, from which nothing tells it.
pub record ApiKey : Type 0 where
  pub id : Str
  pub type : Str
  pub private : Option Str
  pub public : Str
  pub created_at : ℤ
  pub updated_at : ℤ
  pub labels : List Str
  pub notes : Str
  pub token : Str

-- The types behind the interface `keys.Key`.
pub data AnyKey (R P : Type 0) : Type 0 where
  edx25519_key : EdX25519.Key → AnyKey R P
  edx25519_public : EdX25519.PublicKey → AnyKey R P
  x25519_key : X25519.Key → AnyKey R P
  x25519_public : X25519.PublicKey → AnyKey R P
  rsa_key : RsaKey R P → AnyKey R P
  rsa_public_key : RsaPublicKey P → AnyKey R P
  id_key : Str → AnyKey R P

-- What `Check` reports.
pub data Error : Type 0 where
  empty_id empty_type no_key_data : Error
  id_error : Id.Error → Error
  x25519_error : X25519.Error → Error
  edx25519_error : EdX25519.Error → Error
  not_32_bytes nil_pointer : Error

abbrev pub edx25519_type : Str
edx25519_type = codes "edx25519"

abbrev pub x25519_type : Str
x25519_type = codes "x25519"

abbrev pub rsa_type : Str
rsa_type = codes "rsa"

-- A key type as its text.
unfoldable pub type_text : KeyType → Str
type_text edx25519 = edx25519_type
type_text x25519 = x25519_type
type_text unknown = []

unfoldable pub made_of : Str → Str → Option Str → Str → ApiKey
made_of id type private public = record {
  id = id;
  type = type;
  private = private;
  public = public;
  created_at = pos 0;
  updated_at = pos 0;
  labels = [];
  notes = [];
  token = [];
}

-- `k.Created(ts)`.
unfoldable pub created : ApiKey → ℤ → ApiKey
created k ts = record k { created_at = ts; updated_at = ts }

-- `k.Updated(ts)`.
unfoldable pub updated : ApiKey → ℤ → ApiKey
updated k ts = record k { updated_at = ts }

-- The loop of `HasLabel`.
unfoldable pub has_label_in : Str → List Str → Bool
has_label_in label [] = false
has_label_in label (l ∷ ls) = if str_eq l label then true else has_label_in label ls

unfoldable pub has_label : ApiKey → Str → Bool
has_label k label = has_label_in label k.labels

-- `k.WithLabel(label)`.
unfoldable pub with_label : ApiKey → Str → ApiKey
with_label k label = if has_label k label then k else record k { labels = k.labels ++ label ∷ [] }

-- The bytes, where a nil slice has none.
unfoldable pub bytes_or_nil : Option Str → Str
bytes_or_nil none = []
bytes_or_nil (some b) = b

-- `k.Check()`.
unfoldable pub check : ApiKey → Result Error Unit
check k = do
  fail_if (str_eq k.id []) empty_id
  _ ← map_err id_error (parse_id k.id)
  fail_if (str_eq k.type []) empty_type
  fail_if (length k.public == 0 && length (bytes_or_nil k.private) == 0) no_key_data
  ok tt

-- `k.AsEdX25519()`; `none` is nil, and an error is a panic.
unfoldable pub as_edx25519 : ApiKey → Result Error (Option EdX25519.Key)
as_edx25519 k = elim (str_eq k.type edx25519_type) [
  | false ↦ ok none
  | true ↦ elim k.private [
    | none ↦ ok none
    | some b ↦ elim (length b == 64) [
      | false ↦ ok none
      | true ↦ do
        out ← map_err edx25519_error (EdX25519.set_private_key b)
        ok (if str_eq out.public.id k.id then some out else none)
    ]
  ]
]

-- `k.AsEdX25519Public()`.
unfoldable pub as_edx25519_public : ApiKey → Result Error (Option EdX25519.PublicKey)
as_edx25519_public k = elim (str_eq k.type edx25519_type) [
  | false ↦ ok none
  | true ↦ elim k.private [
    | none ↦ elim (length k.public == 32) [
      | false ↦ ok none
      | true ↦ do out ← map_err edx25519_error (EdX25519.new_public_key k.public); ok (some out)
    ]
    | some _ ↦ do sk ← as_edx25519 k; ok (elim sk [ none ↦ none | some s ↦ some s.public ])
  ]
]

module _ (c : Curve) where
  -- `k.AsX25519()`, in which `Bytes32` panics on other than 32 bytes.
  unfoldable pub as_x25519 : ApiKey → Result Error (Option X25519.Key)
  as_x25519 k = elim k.private [
    | none ↦ ok none
    | some b ↦ elim (str_eq k.type x25519_type) [
      | true ↦ do
        fail_if (not (length b == 32)) not_32_bytes
        bk ← map_err x25519_error (X25519.new_key c b)
        ok (some bk)
      | false ↦ elim (str_eq k.type edx25519_type) [
        | false ↦ ok none
        | true ↦ do
          sk ← as_edx25519 k
          elim sk [
            | none ↦ ok none
            | some s ↦ do bk ← map_err x25519_error (X25519.convert_key c s); ok (some bk)
          ]
      ]
    ]
  ]

  -- `k.AsX25519Public()`, which calls a method of a nil key where `AsEdX25519Public` gives nil.
  unfoldable pub as_x25519_public : ApiKey → Result Error (Option X25519.PublicKey)
  as_x25519_public k = elim (str_eq k.type x25519_type) [
    | true ↦ elim (length k.public == 32) [
      | false ↦ ok none
      | true ↦ do out ← map_err x25519_error (X25519.new_public_key k.public); ok (some out)
    ]
    | false ↦ elim (str_eq k.type edx25519_type) [
      | false ↦ ok none
      | true ↦ do
        pk ← as_edx25519_public k
        elim pk [
          | none ↦ err nil_pointer
          | some p ↦ do bk ← map_err x25519_error (X25519.convert_public_key c p); ok (some bk)
        ]
    ]
  ]

module _ {R P : Type 0} (x : Pkcs1 R P) where
  -- `NewKey(k)`.
  unfoldable pub new_key : AnyKey R P → ApiKey
  new_key (edx25519_key k) =
      made_of k.public.id edx25519_type (some k.private_key) k.public.public_key
  new_key (edx25519_public k) = made_of k.id edx25519_type none k.public_key
  new_key (x25519_key k) = made_of k.key_id x25519_type (some k.private_key) k.public.public_key
  new_key (x25519_public k) = made_of k.id x25519_type none k.public_key
  new_key (rsa_key k) =
      made_of k.rsa_public.rsa_id rsa_type (some (x.marshal_private k.rsa_private))
        (x.marshal_public k.rsa_public.pk)
  new_key (rsa_public_key k) = made_of k.rsa_id rsa_type none (x.marshal_public k.pk)
  new_key (id_key i) = made_of i (type_text (type_of i)) none (bytes_or_nil (public_of i))

module _ (h : Crypto) {R P : Type 0} (x : Pkcs1 R P) where
  -- `k.AsRSA()`, nil on an error.
  unfoldable pub as_rsa : ApiKey → Option (RsaKey R P)
  as_rsa k = elim k.private [
    | none ↦ none
    | some b ↦ elim (str_eq k.type rsa_type) [
      | false ↦ none
      | true ↦ elim (rsa_key_from_bytes h x b) [ err _ ↦ none | ok rk ↦ some rk ]
    ]
  ]

  -- `k.AsRSAPublic()`.
  unfoldable pub as_rsa_public : ApiKey → Option (RsaPublicKey P)
  as_rsa_public k = elim (str_eq k.type rsa_type) [
    | false ↦ none
    | true ↦ elim (rsa_public_key_from_bytes h x k.public) [ err _ ↦ none | ok pk ↦ some pk ]
  ]

-- The key in an interface, where a nil pointer of a type makes an interface that is not nil.
unfoldable pub held : {R P A : Type 0} → (A → AnyKey R P) → Option A → Option (Option (AnyKey R P))
held wrap none = some none
held wrap (some k) = some (some (wrap k))

module _ (h : Crypto) (c : Curve) {R P : Type 0} (x : Pkcs1 R P) where
  -- `k.AsPublic()`; `none` is the nil interface.
  unfoldable pub as_public : ApiKey → Result Error (Option (Option (AnyKey R P)))
  as_public k = elim (str_eq k.type edx25519_type) [
    | true ↦ do pk ← as_edx25519_public k; ok (held edx25519_public pk)
    | false ↦ elim (str_eq k.type x25519_type) [
      | true ↦ do pk ← as_x25519_public c k; ok (held x25519_public pk)
      | false ↦ elim (str_eq k.type rsa_type) [
        | true ↦ ok (held rsa_public_key (as_rsa_public h x k))
        | false ↦ ok none
      ]
    ]
  ]

  -- `k.As()`.
  unfoldable pub as_key : ApiKey → Result Error (Option (Option (AnyKey R P)))
  as_key k = elim k.private [
    | none ↦ as_public k
    | some _ ↦ elim (str_eq k.type edx25519_type) [
      | true ↦ do sk ← as_edx25519 k; ok (held edx25519_key sk)
      | false ↦ elim (str_eq k.type x25519_type) [
        | true ↦ do bk ← as_x25519 c k; ok (held x25519_key bk)
        | false ↦ elim (str_eq k.type rsa_type) [
          | true ↦ ok (held rsa_key (as_rsa h x k))
          | false ↦ ok none
        ]
      ]
    ]
  ]
