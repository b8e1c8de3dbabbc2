-- ===== src/X25519/Match.antt =====
-- x25519.go and edx25519.go: keys of one type match those of the other.
use keys.Common.{
  ◌<◌, Bool, true, false, ◌&&◌, Str, str_eq, str_eq_iff, str_eq_self, codes, length, drop,
  if◌then◌else◌, ok, All, Result-cases, ◌≡◌, inl, inr, refl, sym, ap, arith, ◌∙◌,
}
use keys.Bech32
use keys.Bech32.{has_invalid_character}
use keys.Bech32.Case.{is_mixed, to_lower, to_upper, lower_char, upper_char}
use keys.Bech32.RoundTrip.{decode-encode, encode-some}
use keys.EdX25519
use keys.EdX25519.Laws.{IsKeyOf, public_key_from_id_lem}
use keys.Id.{new_id, edx25519_key_hrp, x25519_key_hrp, is_edx25519, is_x25519}
use keys.X25519.{PublicKey, new_public_key, convert_public_key, is_counterpart, x25519_match}
use keys.X25519.Convert.{Curve, public_key_to_curve, public_key_to_curve_lem}

new_id-some :
    (b : Str)
    → length b ≡ 32
    → All (λ y. y < 256) b
    → (s : Str) × (Bech32.encode x25519_key_hrp b ≡ ok s)
unfolding has_invalid_character is_mixed to_lower to_upper lower_char upper_char str_eq
new_id-some b whole bytes =
    encode-some x25519_key_hrp b bytes (omega arith) refl refl (omega (arith, whole))

-- An X25519 public key with its identifier.
pub record IsPublicKey (b : Str) (k : PublicKey) : Type 0 where
  pub whole : k.public_key ≡ b
  pub identified : Bech32.encode x25519_key_hrp b ≡ ok k.id

module _ (c : Curve) where
  pub convert_public_key-some :
      (k : EdX25519.PublicKey)
      → (x : PublicKey) × (convert_public_key c k ≡ ok x)
        × IsPublicKey (public_key_to_curve c k.public_key) x
  unfolding convert_public_key new_public_key new_id
  convert_public_key-some k =
      let b = public_key_to_curve c k.public_key in
      let (whole, bytes, _) = public_key_to_curve_lem c k.public_key in
      let (s, e) = new_id-some b whole bytes in
      (
        record { id = s; public_key = b },
        rw (convert_public_key, whole, new_public_key, new_id, e) refl,
        record { whole = refl; identified = e },
      )

  is_counterpart-some : (ed x : Str) → (m : Bool) × (is_counterpart c ed x ≡ ok m)
  unfolding is_counterpart
  is_counterpart-some ed x = elim (Result-cases (EdX25519.public_key_from_id ed)) [
    | inr (e, f) ↦ (false, rw (is_counterpart, f) refl)
    | inl (k, f) ↦
        let (b, g, _) = convert_public_key-some k in (str_eq x b.id, rw (is_counterpart, f, g) refl)
  ]

  exclusive : (i : Str) → (is_edx25519 i && is_x25519 i) ≡ false
  unfolding is_edx25519 is_x25519 str_eq
  exclusive i = elim (Result-cases (Bech32.decode i)) [
    | inr (e, f) ↦ rw (is_edx25519, f) refl
    | inl ((hrp, b), f) ↦
        rw (is_edx25519, is_x25519, f)
          (ground (arith, str_eq_iff hrp (codes "kex"), str_eq_iff hrp (codes "kbx")))
  ]

  -- `X25519Match` of any two texts does not panic, and gives the same answer for them in either
  -- order, whatever the operations on the curve give.
  pub x25519_match-some :
      (a b : Str) → (m : Bool) × (x25519_match c a b ≡ ok m) × (x25519_match c b a ≡ ok m)
  unfolding x25519_match
  x25519_match-some a b =
      let (m, e) = is_counterpart-some a b in
      let (n, f) = is_counterpart-some b a in
      (
        (if str_eq a b
            then true
            else if is_edx25519 a && is_x25519 b
            then m
            else if is_edx25519 b && is_x25519 a
            then n
            else false),
        ground (arith, e, f),
        ground (arith, e, f, str_eq_iff a b, str_eq_iff b a, exclusive a, exclusive b),
      )

  match_ed :
      (a b : Str)
      → is_edx25519 a ≡ true
      → is_x25519 b ≡ true
      → is_counterpart c a b ≡ ok true
      → x25519_match c a b ≡ ok true
  unfolding x25519_match
  match_ed a b h k e = ground (arith, h, k, e)

  match_x :
      (a b : Str)
      → is_edx25519 a ≡ true
      → is_x25519 b ≡ true
      → is_counterpart c a b ≡ ok true
      → x25519_match c b a ≡ ok true
  match_x a b h k e =
      let (m, first, second) = x25519_match-some a b in second ∙ sym first ∙ match_ed a b h k e

  -- The public key of an EdX25519 key, made from the bytes of its private key, has an X25519
  -- counterpart, and `X25519Match` takes their two identifiers, in either order.
  pub x25519_match-counterpart :
      (seed : Str) (sk : EdX25519.Key)
      → IsKeyOf seed sk
      → All (λ y. y < 256) (drop 32 seed)
      → (x : PublicKey) × (convert_public_key c sk.public ≡ ok x)
        × (x25519_match c sk.public.id x.id ≡ ok true)
        × (x25519_match c x.id sk.public.id ≡ ok true)
  unfolding is_counterpart is_edx25519 is_x25519
  x25519_match-counterpart seed sk k bytes =
      let (x, made, is) = convert_public_key-some sk.public in
      let (_, curve_bytes, _) = public_key_to_curve_lem c sk.public.public_key in
      let ed = decode-encode edx25519_key_hrp (drop 32 seed) sk.public.id bytes k.identified in
      let xd =
        decode-encode x25519_key_hrp (public_key_to_curve c sk.public.public_key) x.id curve_bytes
          is.identified in
      let is_ed : is_edx25519 sk.public.id ≡ true =
        rw (is_edx25519, ed) (str_eq_self edx25519_key_hrp) in
      let is_x : is_x25519 x.id ≡ true = rw (is_x25519, xd) (str_eq_self x25519_key_hrp) in
      let known = public_key_from_id_lem seed sk k bytes in
      let counted : is_counterpart c sk.public.id x.id ≡ ok true =
        rw (is_counterpart, known, made) (ap ok (str_eq_self x.id)) in
      (
        x,
        made,
        match_ed sk.public.id x.id is_ed is_x counted,
        match_x sk.public.id x.id is_ed is_x counted,
      )
