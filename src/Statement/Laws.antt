-- ===== src/Statement/Laws.antt =====
-- statement.go: a statement that is signed by its key verifies.
use keys.Common.{
  ◌<◌, List, [], none, some, false, ◌==◌, Str, str_eq_iff, length, All, drop, ok, Result-cases, ◌≡◌,
  ◌≢◌, inl, inr, refl, ap, arith, ◌∙◌,
}
use keys.Json
use keys.Json.{Entry}
use keys.Crypto.{Crypto, IsCrypto}
use keys.EdX25519
use keys.EdX25519.Laws.{
  IsKeyOf, public_key_from_id_lem, verify_detached-sign_detached, length-sign_detached,
}
use keys.Statement.{
  Statement, Bytes, statement_bytes, statement_entries, bytes_to_sign, sign, verify,
}

-- What is marshalled has its braces at least.
marshal-ne : (es : List Entry) (b : Str) → Json.marshal es ≡ ok b → b ≢ []
unfolding Json.marshal
marshal-ne es b h e = elim (Result-cases (Json.marshal_all es)) [
  | inl (out, m) ↦ ground (arith, m)
  | inr (x, m) ↦ ground (arith, m)
]

bytes_to_sign-ne : (st : Statement) (b : Str) → bytes_to_sign st ≡ ok b → b ≢ []
unfolding bytes_to_sign statement_bytes
bytes_to_sign-ne st b h = elim (Result-cases (Json.marshal (statement_entries st none))) [
  | inl (out, m) ↦ (λ e. marshal-ne (statement_entries st none) out m (ground (arith, m, e)))
  | inr (x, m) ↦ ground (arith, m)
]

-- The bytes that are signed do not depend on the signature.
bytes_to_sign-sig :
    (st : Statement) (sig : Bytes) → bytes_to_sign (record st { sig = sig }) ≡ bytes_to_sign st
unfolding bytes_to_sign statement_bytes statement_entries
bytes_to_sign-sig st sig = refl

module _ (c : Crypto) (laws : IsCrypto c) (seed : Str) (sk : EdX25519.Key)
    (k : IsKeyOf seed sk) where
  -- What signing gives.
  pub sign-eq-ok :
      (st signed : Statement)
      → sign c st sk ≡ ok signed
      → (b : Str) × (bytes_to_sign st ≡ ok b)
        × (st.kid ≡ sk.public.id)
        × (signed ≡ record st { sig = some (EdX25519.sign_detached c sk b) })
  unfolding sign
  sign-eq-ok st signed h = elim (Result-cases (bytes_to_sign st)) [
    | inl (b, e) ↦ (b, e, ground (arith, e, str_eq_iff st.kid sk.public.id), ground (arith, e))
    | inr (x, e) ↦ ground (arith, e)
  ]

  -- A statement that a key signed verifies, if the key is made of its private key, and signing does
  -- what its package documents.
  pub verify-sign :
      (st signed : Statement)
      → All (λ x. x < 256) (drop 32 seed)
      → sign c st sk ≡ ok signed
      → verify c signed ≡ ok tt
  unfolding verify
  verify-sign st signed bytes h =
      let (b, e, owner, is) = sign-eq-ok st signed h in
      let sig = EdX25519.sign_detached c sk b in
      let has_sig : (length sig == 0) ≡ false =
        ground (arith, length-sign_detached c laws seed sk k b) in
      let key = ap EdX25519.public_key_from_id owner ∙ public_key_from_id_lem seed sk k bytes in
      let signed_bytes = bytes_to_sign-sig st (some sig) ∙ e in
      let good = verify_detached-sign_detached c laws seed sk k b (bytes_to_sign-ne st b e) in
      rw is (rw (verify, key, has_sig, signed_bytes, good))
