-- ===== src/EdX25519/Laws.antt =====
-- edx25519.go: a signature of a key is one that its public key verifies.
use keys.Common.{
  ◌<◌, [], ◌∷◌, ◌++◌, true, false, ◌==◌, Str, str_eq, str_eq_iff, str_eq_self, length,
  length-append, length-take, length-drop, drop-append, drop, ltb, All, ok, err, Result-cases,
  Bool-cases, ◌≡◌, ◌≢◌, inl, inr, refl, sym, ap, arith, ◌∙◌,
}
use keys.Bech32
use keys.Bech32.Case.{is_mixed, to_lower, to_upper}
use keys.Bech32.RoundTrip.{decode-encode}
use keys.Crypto.{Crypto, IsCrypto, sign_overhead}
use keys.Id.{new_id, edx25519_key_hrp}
use keys.EdX25519.{
  PublicKey, Key, new_public_key, set_private_key, public_key_from_id, verify, verify_detached,
  sign_detached,
}

-- What a public key made from bytes is.
new_public_key_lem :
    (b : Str) (k : PublicKey)
    → new_public_key b ≡ ok k
    → (Bech32.encode edx25519_key_hrp b ≡ ok k.id) × (k.public_key ≡ b)
unfolding new_public_key new_id
new_public_key_lem b k h = elim (Result-cases (Bech32.encode edx25519_key_hrp b)) [
  | inl (id, e) ↦ (ground (arith, e), ground (arith, e))
  | inr (x, e) ↦ ground (arith, e)
]

-- What a key made from the bytes of a private key is.
pub record IsKeyOf (b : Str) (sk : Key) : Type 0 where
  pub private : sk.private_key ≡ b
  pub whole : length b ≡ 64
  pub public_half : sk.public.public_key ≡ drop 32 b
  pub identified : Bech32.encode edx25519_key_hrp (drop 32 b) ≡ ok sk.public.id

pub set_private_key-IsKeyOf : (b : Str) (sk : Key) → set_private_key b ≡ ok sk → IsKeyOf b sk
unfolding set_private_key
set_private_key-IsKeyOf b sk h = elim (Result-cases (new_public_key (drop 32 b))) [
  | inr (x, e) ↦ ground (arith, e)
  | inl (k, e) ↦
      (let (i, p) = new_public_key_lem (drop 32 b) k e in
        record {
          private = ground (arith, e);
          whole = ground (arith, e);
          public_half = ground (arith, e, p);
          identified = ground (arith, e, i);
        })
]

pub length-drop_32 : (b : Str) → length b ≡ 64 → length (drop 32 b) ≡ 32
length-drop_32 b h = omega (arith, length-drop 32 b)

decode_nil : Bech32.decode [] ≡ err Bech32.separator_position
unfolding Bech32.decode Bech32.split_last is_mixed to_lower to_upper str_eq
decode_nil = refl

-- The identifier of a key is read back as its public key.
pub public_key_from_id_lem :
    (b : Str) (sk : Key)
    → IsKeyOf b sk
    → All (λ x. x < 256) (drop 32 b)
    → public_key_from_id sk.public.id ≡ ok sk.public
unfolding public_key_from_id
public_key_from_id_lem b sk k bytes =
    let decoded = decode-encode edx25519_key_hrp (drop 32 b) sk.public.id bytes k.identified in
    elim (Bool-cases (str_eq sk.public.id [])) [
      | inl empty ↦
          absurd (cc (decoded, decode_nil, ap Bech32.decode ((str_eq_iff sk.public.id []).0 empty)))
      | inr given ↦
          rw
            (
              public_key_from_id,
              given,
              decoded,
              length-drop_32 b k.whole,
              str_eq_self edx25519_key_hrp,
            )
            (ap (λ p. ok (record { id = sk.public.id; public_key = p })) (sym k.public_half))
    ]

module _ (c : Crypto) (laws : IsCrypto c) (b : Str) (sk : Key) (k : IsKeyOf b sk) where
  pub length-sign_detached : (m : Str) → length (sign_detached c sk m) ≡ sign_overhead
  unfolding sign_detached
  length-sign_detached m = omega (
    arith,
    length-take sign_overhead (c.sign sk.private_key m),
    laws.length-sign sk.private_key m,
  )

  sign_open-sign_detached :
      (m : Str) → c.sign_open sk.public.public_key (sign_detached c sk m ++ m) ≡ true
  unfolding sign_detached
  sign_open-sign_detached m = rw (k.public_half, k.private) (laws.sign_open-sign b m k.whole)

  verify-sign_detached : (m : Str) → verify c sk.public (sign_detached c sk m ++ m) ≡ ok m
  unfolding verify
  verify-sign_detached m =
      let l = length-sign_detached m in
      let enough : ltb (length (sign_detached c sk m ++ m)) sign_overhead ≡ false =
        ground (arith, l, length-append (sign_detached c sk m) m) in
      let dropped : drop sign_overhead (sign_detached c sk m ++ m) ≡ m =
        ap (λ n. drop n (sign_detached c sk m ++ m)) (sym l)
        ∙ drop-append (sign_detached c sk m) m in
      rw (verify, enough, sign_open-sign_detached m, dropped)

  -- What `SignDetached` signs, `VerifyDetached` accepts.
  pub verify_detached-sign_detached :
      (m : Str) → m ≢ [] → verify_detached c sk.public (sign_detached c sk m) m ≡ ok tt
  unfolding verify_detached
  verify_detached-sign_detached [] given = absurd (given refl)
  verify_detached-sign_detached (x ∷ m) given =
      let some_bytes : (length (x ∷ m) == 0) ≡ false = ground arith in
      rw (verify_detached, length-sign_detached (x ∷ m), some_bytes, verify-sign_detached (x ∷ m))
