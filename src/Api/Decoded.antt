-- ===== src/Api/Decoded.antt =====
-- api/encode.go: what is decoded passes the check of a key.
use keys.Common.{
  ℕ, zero, suc, ◌<◌, ◌≤◌, [], ◌∷◌, some, false, Str, str_eq, length, take, drop, ok, err, All,
  Result-cases, Option-cases, Bool-cases, inl, inr, ◌≡◌, refl, sym, ap, arith, ◌∙◌,
}
use keys.Bech32
use keys.Bech32.Case.{is_mixed, to_lower, to_upper}
use keys.Bech32.RoundTrip.{decode-encode}
use keys.EdX25519
use keys.EdX25519.Laws.{set_private_key-IsKeyOf}
use keys.Encoding.Saltpack.{Base62, decode_saltpack}
use keys.Id.{new_id, parse_id, x25519_key_hrp, edx25519_key_hrp}
use keys.Secretbox.{Box, decrypt_with_password, decrypt_with_password-eq-ok}
use keys.X25519
use keys.X25519.Convert.{Curve}
use keys.Api.{ApiKey, made_of, edx25519_type, x25519_type, check, bytes_or_nil}
use keys.Api.Encode.{Msgpack, key_brand, edx25519_brand, x25519_brand, key_of_brand, decode_key}

decode_nil : Bech32.decode [] ≡ err Bech32.separator_position
unfolding Bech32.decode Bech32.split_last is_mixed to_lower to_upper str_eq
decode_nil = refl

-- The identifier of bytes is one that `ParseID` takes.
identifier_lem :
    (hrp b s : Str)
    → All (λ y. y < 256) b
    → Bech32.encode hrp b ≡ ok s
    → (str_eq s [] ≡ false) × (parse_id s ≡ ok s)
unfolding parse_id str_eq
identifier_lem hrp b [] bytes e = cc (decode-encode hrp b [] bytes e, decode_nil)
identifier_lem hrp b (y ∷ s) bytes e =
    (refl, rw (parse_id, decode-encode hrp b (y ∷ s) bytes e) refl)

check-made_of :
    (id type private public : Str)
    → str_eq id [] ≡ false
    → parse_id id ≡ ok id
    → str_eq type [] ≡ false
    → 1 ≤ length private
    → check (made_of id type (some private) public) ≡ ok tt
unfolding check made_of bytes_or_nil
check-made_of id type private public given parsed typed long =
    rw (check, made_of, given, parsed, typed) (ground arith)

x_key_identified :
    (c : Curve) (b : Str) (k : X25519.Key)
    → X25519.new_key c b ≡ ok k
    → (Bech32.encode x25519_key_hrp (c.scalar_base_mult b) ≡ ok k.key_id) × (k.private_key ≡ b)
unfolding X25519.new_key X25519.new_public_key new_id
x_key_identified c b k h =
    elim (Result-cases (Bech32.encode x25519_key_hrp (c.scalar_base_mult b))) [
      | inr (e, f) ↦ ground (arith, f)
      | inl (s, f) ↦ (ground (arith, f), ground (arith, f))
    ]

All-drop : (n : ℕ) (b : Str) → All (λ y. y < 256) b → All (λ y. y < 256) (drop n b)
All-drop zero b h = h
All-drop (suc n) [] h = tt
All-drop (suc n) (y ∷ b) (_, h) = All-drop n b h

-- What a box and the multiplication of the base point give are bytes.
pub record AreBytes (box : Box) (c : Curve) : Type 0 where
  pub opened : (e nonce key b : Str) → box.open_box e nonce key ≡ some b → All (λ y. y < 256) b
  pub multiplied : (b : Str) → All (λ y. y < 256) (c.scalar_base_mult b)

module _ (box : Box) (mp : Msgpack) (c : Curve) (laws : AreBytes box c) where
  edx25519-check :
      (b : Str) (sk : EdX25519.Key)
      → All (λ y. y < 256) b
      → EdX25519.set_private_key b ≡ ok sk
      → check (made_of sk.public.id edx25519_type (some sk.private_key) sk.public.public_key)
        ≡ ok tt
  unfolding str_eq
  edx25519-check b sk bytes h =
      let of = set_private_key-IsKeyOf b sk h in
      let (given, parsed) =
        identifier_lem edx25519_key_hrp (drop 32 b) sk.public.id (All-drop 32 b bytes)
          of.identified in
      check-made_of sk.public.id edx25519_type sk.private_key sk.public.public_key given parsed refl
        (omega (arith, ap length of.private, of.whole))

  x25519-check :
      (b : Str) (bk : X25519.Key)
      → length b ≡ 32
      → X25519.new_key c b ≡ ok bk
      → check (made_of bk.key_id x25519_type (some bk.private_key) bk.public.public_key) ≡ ok tt
  unfolding str_eq
  x25519-check b bk long h =
      let (identified, is) = x_key_identified c b bk h in
      let (given, parsed) =
        identifier_lem x25519_key_hrp (c.scalar_base_mult b) bk.key_id (laws.multiplied b)
          identified in
      check-made_of bk.key_id x25519_type bk.private_key bk.public.public_key given parsed refl
        (omega (arith, ap length is, long))

  key_of_brand-check :
      (brand b : Str) (key : ApiKey)
      → All (λ y. y < 256) b
      → key_of_brand box mp c brand b ≡ ok key
      → check key ≡ ok tt
  unfolding key_of_brand
  key_of_brand-check brand b key bytes h = elim (Bool-cases (str_eq brand key_brand)) [
    | inl p ↦ elim (Option-cases (mp.unmarshal b)) [
      | inl u ↦ ground (arith, p, u)
      | inr (k, u) ↦ elim (Result-cases (check k)) [
        | inr (e, f) ↦ ground (arith, p, u, f)
        | inl (_, f) ↦ let same : k ≡ key = ground (arith, p, u, f) in ap check (sym same) ∙ f
      ]
    ]
    | inr p ↦ elim (Bool-cases (str_eq brand edx25519_brand)) [
      | inl q ↦ elim (Result-cases (EdX25519.set_private_key b)) [
        | inr (e, f) ↦ ground (arith, p, q, f)
        | inl (sk, f) ↦
            let made : made_of sk.public.id edx25519_type (some sk.private_key) sk.public.public_key
                ≡ key =
              ground (arith, p, q, f) in
            ap check (sym made) ∙ edx25519-check b sk bytes f
      ]
      | inr q ↦ elim (Bool-cases (str_eq brand x25519_brand)) [
        | inr r ↦ ground (arith, p, q, r)
        | inl r ↦ elim (Result-cases (X25519.new_key c b)) [
          | inr (e, f) ↦ ground (arith, p, q, r, f)
          | inl (bk, f) ↦
              let made : made_of bk.key_id x25519_type (some bk.private_key) bk.public.public_key
                  ≡ key =
                ground (arith, p, q, r, f) in
              let long : length b ≡ 32 = ground (arith, p, q, r, f) in
              ap check (sym made) ∙ x25519-check b bk long f
        ]
      ]
    ]
  ]

  decrypted :
      (encrypted password b : Str)
      → decrypt_with_password box encrypted password ≡ ok b
      → All (λ y. y < 256) b
  decrypted encrypted password b h =
      laws.opened (drop 24 (drop 16 encrypted)) (take 24 (drop 16 encrypted))
        (box.id_key password (take 16 encrypted)) b
        (decrypt_with_password-eq-ok box encrypted password b h)

  module _ (x : Base62) (unescape : Str → Str) where
    -- What `DecodeKey` gives passes `Check`, also where it was made of the bare bytes of a private
    -- key, if a box holds bytes.
    pub decode_key-check :
        (msg password : Str) (key : ApiKey)
        → decode_key box mp c x unescape msg password ≡ ok key
        → check key ≡ ok tt
    unfolding decode_key
    decode_key-check msg password key h =
        elim (Result-cases (decode_saltpack x unescape msg false)) [
          | inr (e, f) ↦ ground (arith, f)
          | inl ((decoded, brand), f) ↦
              elim (Result-cases (decrypt_with_password box decoded password)) [
                | inr (e, g) ↦ ground (arith, f, g)
                | inl (b, g) ↦
                    key_of_brand-check brand b key (decrypted decoded password b g)
                      (ground (arith, f, g))
              ]
        ]
