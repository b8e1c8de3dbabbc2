-- ===== src/Api/Back.antt =====
-- api/as.go: a key of the API stands for the key that it was made of.
use keys.Common.{some, Str, str_eq, str_eq_self, length, ok, ◌>>=◌, ◌≡◌, refl, ap, arith, ◌∙◌}
use keys.Crypto.{Crypto}
use keys.EdX25519
use keys.EdX25519.Laws.{set_private_key-IsKeyOf}
use keys.Rsa.{
  Pkcs1, IsPkcs1, RsaKey, RsaPublicKey, new_rsa_key, new_rsa_public_key, rsa_key_from_bytes,
  rsa_public_key_from_bytes,
}
use keys.X25519
use keys.X25519.Convert.{Curve}
use keys.Api.{
  AnyKey, edx25519_key, edx25519_public, x25519_key, x25519_public, rsa_key, rsa_public_key, id_key,
  made_of, new_key, held, as_edx25519, as_edx25519_public, as_x25519, as_x25519_public, as_rsa,
  as_rsa_public, as_public, as_key,
}

-- A made public key holds the bytes that it was made of.
ed_public_lem :
    (b : Str) (k : EdX25519.PublicKey) → EdX25519.new_public_key b ≡ ok k → k.public_key ≡ b
unfolding EdX25519.new_public_key
ed_public_lem b k h = ground arith

x_public_lem : (b : Str) (k : X25519.PublicKey) → X25519.new_public_key b ≡ ok k → k.public_key ≡ b
unfolding X25519.new_public_key
x_public_lem b k h = ground arith

module _ (h : Crypto) (c : Curve) {R P : Type 0} (x : Pkcs1 R P) where
  x_key_lem : (b : Str) (k : X25519.Key) → X25519.new_key c b ≡ ok k → k.private_key ≡ b
  unfolding X25519.new_key
  x_key_lem b k e = ground arith

  rsa_public_lem : (r : P) (k : RsaPublicKey P) → new_rsa_public_key h x r ≡ ok k → k.pk ≡ r
  unfolding new_rsa_public_key
  rsa_public_lem r k e = ground arith

  rsa_key_lem : (r : R) (k : RsaKey R P) → new_rsa_key h x r ≡ ok k → k.rsa_private ≡ r
  unfolding new_rsa_key
  rsa_key_lem r k e = ground arith

  -- How the code makes a key: from the bytes, or the numbers, of its private or public part.
  unfoldable pub IsMade : AnyKey R P → Type 0
  IsMade (edx25519_key k) = (b : Str) × (EdX25519.set_private_key b ≡ ok k)
  IsMade (edx25519_public k) = (b : Str) × (length b ≡ 32) × (EdX25519.new_public_key b ≡ ok k)
  IsMade (x25519_key k) = (b : Str) × (length b ≡ 32) × (X25519.new_key c b ≡ ok k)
  IsMade (x25519_public k) = (b : Str) × (length b ≡ 32) × (X25519.new_public_key b ≡ ok k)
  IsMade (rsa_key k) = (r : R) × (new_rsa_key h x r ≡ ok k)
  IsMade (rsa_public_key k) = (r : P) × (new_rsa_public_key h x r ≡ ok k)
  IsMade (id_key i) = ⊥

  back_edx25519 :
      (k : EdX25519.Key)
      → IsMade (edx25519_key k)
      → as_edx25519 (new_key x (edx25519_key k)) ≡ ok (some k)
  unfolding as_edx25519 new_key made_of str_eq IsMade
  back_edx25519 k (b, made) =
      let of = set_private_key-IsKeyOf b k made in
      let set = ap EdX25519.set_private_key of.private ∙ made in
      let whole = ap length of.private ∙ of.whole in
      rw (as_edx25519, new_key, made_of, whole, set) (ground (arith, str_eq_self k.public.id))

  back_edx25519_public :
      (k : EdX25519.PublicKey)
      → IsMade (edx25519_public k)
      → as_edx25519_public (new_key x (edx25519_public k)) ≡ ok (some k)
  unfolding as_edx25519_public new_key made_of str_eq IsMade
  back_edx25519_public k (b, whole, made) =
      let is = ed_public_lem b k made in
      let set = ap EdX25519.new_public_key is ∙ made in
      let long = ap length is ∙ whole in rw (as_edx25519_public, new_key, made_of, long, set) refl

  back_x25519 :
      (k : X25519.Key)
      → IsMade (x25519_key k)
      → as_x25519 c (new_key x (x25519_key k)) ≡ ok (some k)
  unfolding as_x25519 new_key made_of str_eq IsMade
  back_x25519 k (b, whole, made) =
      let is = x_key_lem b k made in
      let set = ap (X25519.new_key c) is ∙ made in
      let long = ap length is ∙ whole in rw (as_x25519, new_key, made_of, long, set) refl

  back_x25519_public :
      (k : X25519.PublicKey)
      → IsMade (x25519_public k)
      → as_x25519_public c (new_key x (x25519_public k)) ≡ ok (some k)
  unfolding as_x25519_public new_key made_of str_eq IsMade
  back_x25519_public k (b, whole, made) =
      let is = x_public_lem b k made in
      let set = ap X25519.new_public_key is ∙ made in
      let long = ap length is ∙ whole in rw (as_x25519_public, new_key, made_of, long, set) refl

  back_rsa :
      (k : RsaKey R P)
      → IsPkcs1 x
      → IsMade (rsa_key k)
      → as_rsa h x (new_key x (rsa_key k)) ≡ some k
  unfolding as_rsa rsa_key_from_bytes new_key made_of str_eq IsMade
  back_rsa k laws (r, made) =
      let set = ap (new_rsa_key h x) (rsa_key_lem r k made) ∙ made in
      rw (as_rsa, new_key, made_of, rsa_key_from_bytes, laws.private_back k.rsa_private, set) refl

  back_rsa_public :
      (k : RsaPublicKey P)
      → IsPkcs1 x
      → IsMade (rsa_public_key k)
      → as_rsa_public h x (new_key x (rsa_public_key k)) ≡ some k
  unfolding as_rsa_public rsa_public_key_from_bytes new_key made_of str_eq IsMade
  back_rsa_public k laws (r, made) =
      let set = ap (new_rsa_public_key h x) (rsa_public_lem r k made) ∙ made in
      rw (as_rsa_public, new_key, made_of, rsa_public_key_from_bytes, laws.public_back k.pk, set)
        refl

  -- `As` of the key of the API that `NewKey` makes of an EdX25519, X25519 or RSA key, private or
  -- public, gives that key back, if it is made as the code makes keys, of its bytes or numbers, and
  -- the bytes of an RSA key are read back.
  pub as_key-new_key :
      (k : AnyKey R P) → IsPkcs1 x → IsMade k → as_key h c x (new_key x k) ≡ ok (some (some k))
  unfolding as_key as_public new_key held made_of str_eq IsMade
  as_key-new_key (edx25519_key k) laws m =
      ap (λ r. do sk ← r; ok (held edx25519_key sk)) (back_edx25519 k m)
  as_key-new_key (edx25519_public k) laws m =
      ap (λ r. do pk ← r; ok (held edx25519_public pk)) (back_edx25519_public k m)
  as_key-new_key (x25519_key k) laws m =
      ap (λ r. do bk ← r; ok (held x25519_key bk)) (back_x25519 k m)
  as_key-new_key (x25519_public k) laws m =
      ap (λ r. do pk ← r; ok (held x25519_public pk)) (back_x25519_public k m)
  as_key-new_key (rsa_key k) laws m = ap (λ o. ok (held rsa_key o)) (back_rsa k laws m)
  as_key-new_key (rsa_public_key k) laws m =
      ap (λ o. ok (held rsa_public_key o)) (back_rsa_public k laws m)
  as_key-new_key (id_key i) laws m = absurd m
