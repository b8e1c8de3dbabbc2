-- ===== src/X25519/Examples.antt =====
-- Runs of the theorems of X25519 keys at a concrete key, over operations that are easy to compute.
use keys.Common.{◌∷◌, some, Bool, true, ok, ◌≡◌, refl, replicate}
use keys.Sigchain.Examples.{seed, key, key-IsKeyOf, bytes-half, kid}
use keys.X25519.{PublicKey, convert_public_key, x25519_match}
use keys.X25519.Convert.{
  Curve, public_key_to_curve, set_bytes, reverse_onto, u_of, y_of, times_mod, denom_of, one_minus,
  mask_sign, big_bytes,
}
use keys.X25519.Match.{x25519_match-some, x25519_match-counterpart}

abbrev easy : Curve
easy = record { sha512 = λ b. b; scalar_base_mult = λ b. b; mod_inverse = λ g n. some 3 }

x25519_match-some_example :
    (m : Bool) × (x25519_match easy kid kid ≡ ok m) × (x25519_match easy kid kid ≡ ok m)
x25519_match-some_example = x25519_match-some easy kid kid

x25519_match-counterpart_example :
    (x : PublicKey) × (convert_public_key easy key.public ≡ ok x)
    × (x25519_match easy key.public.id x.id ≡ ok true)
    × (x25519_match easy x.id key.public.id ≡ ok true)
x25519_match-counterpart_example = x25519_match-counterpart easy seed key key-IsKeyOf bytes-half

-- The point with `y` of 2.
converted : public_key_to_curve easy (2 ∷ replicate 31 0) ≡ 9 ∷ replicate 31 0
unfolding public_key_to_curve set_bytes reverse_onto u_of y_of times_mod denom_of one_minus
    mask_sign big_bytes
converted = refl
