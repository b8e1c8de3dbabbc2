-- ===== src/X25519/Convert.antt =====
-- ed25519.go: the keys of Curve25519 that belong to those of Ed25519. The inverse modulo a number,
-- SHA-512 and the multiplication of the base point are parameters.
use keys.Common.{
  ℕ, zero, suc, ◌+◌, ◌-◌, ◌*◌, ◌≤◌, ◌<◌, ◌^◌, ◌%◌, ◌/◌, [], ◌∷◌, ◌++◌, Option, none, some, ◌==◌,
  Str, length, take, replicate, if◌then◌else◌, ◌≡◌, refl, ap, ◌∙◌, arith, All, append-nil,
  length-append, All-append,
}
use native.Mathlib.Nat.{pow-suc}
use keys.Common.Int.{ℤ, pos, negsuc}

pub record Curve : Type 0 where
  -- SHA-512 of the bytes.
  pub sha512 : Str → Str
  -- `curve25519.ScalarBaseMult`.
  pub scalar_base_mult : Str → Str
  -- `ModInverse(g, n)`, `none` for nil.
  pub mod_inverse : ℤ → ℕ → Option ℕ

abbrev pub x25519_p : ℕ
x25519_p = 2 ^ 255 - 19

-- The bytes in the opposite order, before others.
unfoldable pub reverse_onto : Str → Str → Str
reverse_onto [] out = out
reverse_onto (b ∷ bs) out = reverse_onto bs (b ∷ out)

-- `SetBytes`, behind bytes of the value `n`.
unfoldable pub set_bytes : Str → ℕ → ℕ
set_bytes [] n = n
set_bytes (b ∷ bs) n = set_bytes bs (n * 256 + b)

-- `u.Bytes()` of a number of at most `fuel` bytes, before others.
unfoldable pub big_bytes : ℕ → ℕ → Str → Str
big_bytes zero n out = out
big_bytes (suc fuel) n out =
    let rest = big_bytes fuel (n / 256) (n % 256 ∷ out) in if n == 0 then out else rest

-- `bigEndianY[0] &= 0b0111_1111`.
unfoldable pub mask_sign : Str → Str
mask_sign [] = []
mask_sign (b ∷ bs) = b % 128 ∷ bs

-- The coordinate `y` of a public key.
unfoldable pub y_of : Str → ℕ
y_of pk = set_bytes (mask_sign (reverse_onto pk [])) 0

-- `1 - y`.
unfoldable pub one_minus : ℕ → ℤ
one_minus zero = pos 1
one_minus (suc zero) = pos 0
one_minus (suc (suc n)) = negsuc n

-- `a * d` modulo `n`, which is not negative.
unfoldable pub times_mod : ℕ → ℤ → ℕ → ℕ
times_mod a (pos d) n = (a * d) % n
times_mod a (negsuc d) n = let r = (a * (d + 1)) % n in if r == 0 then 0 else n - r

module _ (c : Curve) where
  -- `denom`, which keeps its value where there is no inverse.
  unfoldable pub denom_of : ℕ → ℤ
  denom_of y = elim (c.mod_inverse (one_minus y) x25519_p) [ none ↦ one_minus y | some d ↦ pos d ]

  -- The coordinate `u`.
  unfoldable pub u_of : ℕ → ℕ
  u_of y = times_mod (y + 1) (denom_of y) x25519_p

  -- `ed25519PublicKeyToCurve25519(pk)` of 32 bytes.
  unfoldable pub public_key_to_curve : Str → Str
  public_key_to_curve pk =
      let u_bytes = big_bytes 32 (u_of (y_of pk)) [] in
      reverse_onto u_bytes [] ++ replicate (32 - length u_bytes) 0

  -- `ed25519PrivateKeyToCurve25519(pk)`: the seed is the first half.
  unfoldable pub private_key_to_curve : Str → Str
  private_key_to_curve pk = take 32 (c.sha512 (take 32 pk))

length-reverse_onto : (s t : Str) → length (reverse_onto s t) ≡ length s + length t
unfolding reverse_onto
length-reverse_onto [] t = omega arith
length-reverse_onto (b ∷ s) t = omega (arith, length-reverse_onto s (b ∷ t))

length-big_bytes : (fuel n : ℕ) (out : Str) → length (big_bytes fuel n out) ≤ fuel + length out
unfolding big_bytes
length-big_bytes zero n out = omega arith
length-big_bytes (suc fuel) n out = ground (arith, length-big_bytes fuel (n / 256) (n % 256 ∷ out))

below : (fuel n : ℕ) → n < 256 ^ suc fuel → n / 256 < 256 ^ fuel
below fuel n h = let power = pow-suc 256 fuel in omega arith

set_bytes-big_bytes :
    (fuel n : ℕ) (out : Str) → n < 256 ^ fuel → set_bytes (big_bytes fuel n out) 0 ≡ set_bytes out n
unfolding set_bytes big_bytes
set_bytes-big_bytes zero n out h = let none_left : n ≡ 0 = omega arith in rw none_left refl
set_bytes-big_bytes (suc fuel) n out h =
    let whole : n / 256 * 256 + n % 256 ≡ n = omega arith in
    let rest = set_bytes-big_bytes fuel (n / 256) (n % 256 ∷ out) (below fuel n h) in
    let value = rest ∙ ap (set_bytes out) whole in ground (arith, value)

All-reverse_onto :
    (s t : Str)
    → All (λ b. b < 256) s
    → All (λ b. b < 256) t
    → All (λ b. b < 256) (reverse_onto s t)
unfolding reverse_onto
All-reverse_onto [] t _ k = k
All-reverse_onto (b ∷ s) t (h, hs) k = All-reverse_onto s (b ∷ t) hs (h, k)

All-big_bytes :
    (fuel n : ℕ) (out : Str) → All (λ b. b < 256) out → All (λ b. b < 256) (big_bytes fuel n out)
unfolding big_bytes
All-big_bytes zero n out h = h
All-big_bytes (suc fuel) n out h = ground (arith, All-big_bytes fuel (n / 256) (n % 256 ∷ out))

reverse_onto-reverse_onto :
    (s t r : Str) → reverse_onto (reverse_onto s t) r ≡ reverse_onto t (s ++ r)
unfolding reverse_onto
reverse_onto-reverse_onto [] t r = refl
reverse_onto-reverse_onto (b ∷ s) t r = reverse_onto-reverse_onto s (b ∷ t) r

reverse_onto-append : (s t r : Str) → reverse_onto (s ++ t) r ≡ reverse_onto t (reverse_onto s r)
unfolding reverse_onto
reverse_onto-append [] t r = refl
reverse_onto-append (b ∷ s) t r = reverse_onto-append s t (b ∷ r)

-- Leading zeros do not change a number.
set_bytes-zeros : (n : ℕ) (s : Str) → set_bytes (reverse_onto (replicate n 0) s) 0 ≡ set_bytes s 0
unfolding set_bytes reverse_onto
set_bytes-zeros zero s = refl
set_bytes-zeros (suc n) s = set_bytes-zeros n (0 ∷ s)

length-zeros : (n : ℕ) → length {A = ℕ} (replicate n 0) ≡ n
length-zeros zero = refl
length-zeros (suc n) = omega (arith, length-zeros n)

All-zeros : (n : ℕ) → All (λ b. b < 256) (replicate n 0)
All-zeros zero = tt
All-zeros (suc n) = (omega arith, All-zeros n)

times_mod-below : (a : ℕ) (d : ℤ) → times_mod a d x25519_p < 2 ^ 256
unfolding times_mod
times_mod-below a (pos d) = omega arith
times_mod-below a (negsuc d) = ground arith

twice : (s : Str) → reverse_onto (reverse_onto s []) [] ≡ s
unfolding reverse_onto
twice s = reverse_onto-reverse_onto s [] [] ∙ append-nil s

module _ (c : Curve) where
  pub u_of-below : (y : ℕ) → u_of c y < 2 ^ 256
  unfolding u_of
  u_of-below y = times_mod-below (y + 1) (denom_of c y)

  -- The bytes of a converted key, the last first, are the number `u`.
  pub public_key_to_curve_lem :
      (pk : Str)
      → (length (public_key_to_curve c pk) ≡ 32)
        × All (λ b. b < 256) (public_key_to_curve c pk)
        × (set_bytes (reverse_onto (public_key_to_curve c pk) []) 0 ≡ u_of c (y_of pk))
  unfolding public_key_to_curve u_of set_bytes
  public_key_to_curve_lem pk =
      let u = big_bytes 32 (u_of c (y_of pk)) [] in
      let zeros : Str = replicate (32 - length u) 0 in
      (
        omega (
          arith,
          length-append (reverse_onto u []) zeros,
          length-reverse_onto u [],
          length-zeros (32 - length u),
          length-big_bytes 32 (u_of c (y_of pk)) [],
        ),
        All-append (λ b. b < 256) (reverse_onto u []) zeros
            (All-reverse_onto u [] (All-big_bytes 32 (u_of c (y_of pk)) [] tt) tt)
            (All-zeros (32 - length u)),
        ap (λ s. set_bytes s 0)
              (reverse_onto-append (reverse_onto u []) zeros [] ∙ ap (reverse_onto zeros) (twice u))
            ∙ set_bytes-zeros (32 - length u) u
            ∙ set_bytes-big_bytes 32 (u_of c (y_of pk)) [] (u_of-below (y_of pk)),
      )
