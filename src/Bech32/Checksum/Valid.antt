-- ===== src/Bech32/Checksum/Valid.antt =====
-- bech32/bech32.go: the checksum that `createChecksum` appends is one that `verifyChecksum` takes.
use Prim.Native.Nat.{bit_xor}
use keys.Common.{
  ℕ, ◌+◌, ◌*◌, ◌/◌, ◌^◌, ◌<◌, List, [], ◌∷◌, ◌++◌, append_assoc, true, ltb, ==_iff, Str, All,
  All-append, ◌≡◌, refl, arith, ap, ap₂, ◌∙◌, sym,
}
use keys.Common.Bits.Xor.{bit_xor_self, bit_xor-zero, bit_xor_assoc, bit_xor_fields}
use keys.Bech32.Case.{to_lower}
use keys.Bech32.Checksum.{
  apply_generator, apply_generators, polymod_step, polymod_from, polymod, hrp_expand,
  verify_checksum, checksum_digit, checksum_digits, create_checksum, high_bits, low_bits,
}
use keys.Bech32.Checksum.Linear.{
  all_below, all_below_sound, mask, shifted, zero-bit_xor, polymod_step-lem, polymod_step-xor,
}

-- The states and the values stay within 30 bits.
abbrev Fits : ℕ → Type 0
Fits n = n < 1073741824

xor-Fits : (a b : ℕ) → Fits a → Fits b → Fits (bit_xor a b)
xor-Fits a b p q = ground (arith, bit_xor_fields 30 0 0 a b p q)

mask_fits_table : all_below 32 (λ t. ltb (mask t) 1073741824) ≡ true
unfolding all_below mask apply_generators apply_generator
mask_fits_table = refl

mask-Fits : (t : ℕ) → t < 32 → Fits (mask t)
mask-Fits t h =
    let r = all_below_sound 32 (λ t. ltb (mask t) 1073741824) t mask_fits_table h in
    ground (arith, r)

polymod_step-Fits : (c v : ℕ) → Fits c → Fits v → Fits (polymod_step c v)
unfolding shifted
polymod_step-Fits c v p q =
    rw (polymod_step-lem c v)
      (xor-Fits _ _ (xor-Fits _ v (omega arith) q) (mask-Fits (c / 2 ^ 25) (omega arith)))

polymod_from-Fits : (c : ℕ) (vs : List ℕ) → Fits c → All Fits vs → Fits (polymod_from c vs)
unfolding polymod_from
polymod_from-Fits c [] p _ = p
polymod_from-Fits c (v ∷ vs) p (q, qs) =
    polymod_from-Fits (polymod_step c v) vs (polymod_step-Fits c v p q) qs

polymod_from-append :
    (c : ℕ) (vs ws : List ℕ) → polymod_from c (vs ++ ws) ≡ polymod_from (polymod_from c vs) ws
unfolding polymod_from
polymod_from-append c [] ws = refl
polymod_from-append c (v ∷ vs) ws = polymod_from-append (polymod_step c v) vs ws

-- As many zeros.
abbrev zeros : List ℕ → List ℕ
zeros [] = []
zeros (v ∷ vs) = 0 ∷ zeros vs

-- The values and a part of the state are added to what the rest of the state gives.
polymod_from-xor :
    (a b : ℕ) (ws : List ℕ)
    → Fits a
    → Fits b
    → All Fits ws
    → polymod_from (bit_xor a b) ws ≡ bit_xor (polymod_from a (zeros ws)) (polymod_from b ws)
unfolding polymod_from
polymod_from-xor a b [] p q _ = refl
polymod_from-xor a b (w ∷ ws) p q (r, rs) =
    ap (λ t. polymod_from t ws)
      (ap (polymod_step (bit_xor a b)) (sym (zero-bit_xor w)) ∙ polymod_step-xor a b 0 w p q)
    ∙ polymod_from-xor (polymod_step a 0) (polymod_step b w) ws
        (polymod_step-Fits a 0 p (omega arith)) (polymod_step-Fits b w q r) rs

-- A small state is shifted, with the value behind it.
polymod_step_small : (a v : ℕ) → a < 2 ^ 25 → v < 32 → polymod_step a v ≡ a * 32 + v
unfolding shifted
polymod_step_small a v p q =
    let high : a / 2 ^ 25 ≡ 0 = omega arith in
    let no_mask : mask 0 ≡ 0 = (unfold mask apply_generators apply_generator in refl) in
    polymod_step-lem a v
    ∙ rw (high, no_mask, bit_xor-zero)
        (ground (
          arith,
          bit_xor_fields 5 a 0 0 v (omega arith) (omega arith),
          bit_xor-zero a,
          zero-bit_xor v,
        ))

polymod_step_zero : (v : ℕ) → v < 32 → polymod_step 0 v ≡ v
polymod_step_zero v h = omega (arith, polymod_step_small 0 v (omega arith) h)

module _ (v0 v1 v2 v3 v4 v5 : ℕ) (h0 : v0 < 32) (h1 : v1 < 32) (h2 : v2 < 32) (h3 : v3 < 32)
    (h4 : v4 < 32) (h5 : v5 < 32) where
  polymod_from_six :
      polymod_from 0 (v0 ∷ v1 ∷ v2 ∷ v3 ∷ v4 ∷ v5 ∷ [])
      ≡ ((((v0 * 32 + v1) * 32 + v2) * 32 + v3) * 32 + v4) * 32 + v5
  unfolding polymod_from
  polymod_from_six = rw (
    polymod_step_zero v0 h0,
    polymod_step_small v0 v1 (omega arith) h1,
    polymod_step_small (v0 * 32 + v1) v2 (omega arith) h2,
    polymod_step_small ((v0 * 32 + v1) * 32 + v2) v3 (omega arith) h3,
    polymod_step_small (((v0 * 32 + v1) * 32 + v2) * 32 + v3) v4 (omega arith) h4,
    polymod_step_small ((((v0 * 32 + v1) * 32 + v2) * 32 + v3) * 32 + v4) v5 (omega arith) h5,
  )

-- The digits of a state, read as values by `polymod` from 0, are that state.
polymod_from-checksum_digits : (m : ℕ) → Fits m → polymod_from 0 (checksum_digits m) ≡ m
unfolding checksum_digits checksum_digit
polymod_from-checksum_digits m h =
    polymod_from_six _ _ _ _ _ _ (omega arith) (omega arith) (omega arith) (omega arith)
      (omega arith) (omega arith)
    ∙ omega arith

checksum_digits-Fits : (m : ℕ) → All Fits (checksum_digits m)
unfolding checksum_digits checksum_digit
checksum_digits-Fits m =
    (omega arith, (omega arith, (omega arith, (omega arith, (omega arith, (omega arith, tt))))))

-- The values whose `polymod` is taken.
hrp_expand-Fits : (hrp : Str) → All (λ c. c < 256) (to_lower hrp) → All Fits (hrp_expand hrp)
unfolding hrp_expand
hrp_expand-Fits hrp h =
    All-append Fits (high_bits (to_lower hrp)) _ (high (to_lower hrp) h)
      (omega arith, low (to_lower hrp))
  where
    high : (s : Str) → All (λ c. c < 256) s → All Fits (high_bits s)
    high [] _ = tt
    high (c ∷ s) (h, hs) = (omega arith, high s hs)

    low : (s : Str) → All Fits (low_bits s)
    low [] = tt
    low (c ∷ s) = (omega arith, low s)

polymod_from-completed :
    (start : ℕ)
    → Fits start
    → polymod_from start
        (checksum_digits (bit_xor (polymod_from start (0 ∷ 0 ∷ 0 ∷ 0 ∷ 0 ∷ 0 ∷ [])) 1))
      ≡ 1
polymod_from-completed start h =
    let z = polymod_from start (0 ∷ 0 ∷ 0 ∷ 0 ∷ 0 ∷ 0 ∷ []) in
    let ds = checksum_digits (bit_xor z 1) in
    let z_fits : Fits z = polymod_from-Fits start _ h (omega arith) in
    let zeroed : polymod_from start (zeros ds) ≡ z = (unfold checksum_digits in refl) in
    ap (λ t. polymod_from t ds) (sym (bit_xor-zero start))
    ∙ polymod_from-xor start 0 ds h (omega arith) (checksum_digits-Fits (bit_xor z 1))
    ∙ ap₂ bit_xor zeroed
        (polymod_from-checksum_digits (bit_xor z 1) (xor-Fits z 1 z_fits (omega arith)))
    ∙ sym (bit_xor_assoc z z 1)
    ∙ ap (λ t. bit_xor t 1) (bit_xor_self z)
    ∙ zero-bit_xor 1

module _ (hrp : Str) (values : List ℕ) (hh : All (λ c. c < 256) (to_lower hrp))
    (hv : All (λ v. v < 32) values) where
  start-Fits : Fits (polymod_from 1 (hrp_expand hrp ++ values))
  start-Fits =
      polymod_from-Fits 1 _ (omega arith)
        (All-append Fits _ _ (hrp_expand-Fits hrp hh) (digits_fit values hv))
    where
      digits_fit : (vs : List ℕ) → All (λ v. v < 32) vs → All Fits vs
      digits_fit [] _ = tt
      digits_fit (v ∷ vs) (h, hs) = (omega arith, digits_fit vs hs)

  -- The digits of `createChecksum`, put behind any digits below 32 and a human-readable part whose
  -- characters are below 256 in lower case, make a checksum that `verifyChecksum` accepts.
  pub verify_checksum-create_checksum :
      verify_checksum hrp (values ++ create_checksum hrp values) ≡ true
  unfolding verify_checksum create_checksum polymod
  verify_checksum-create_checksum =
      let start = hrp_expand hrp ++ values in
      (==_iff _ 1).1 (
        ap (polymod_from 1)
          (sym (append_assoc (hrp_expand hrp) values (create_checksum hrp values)))
        ∙ polymod_from-append 1 start (create_checksum hrp values)
        ∙ ap (λ t. polymod_from (polymod_from 1 start) (checksum_digits (bit_xor t 1)))
            (polymod_from-append 1 start (0 ∷ 0 ∷ 0 ∷ 0 ∷ 0 ∷ 0 ∷ []))
        ∙ polymod_from-completed (polymod_from 1 start) start-Fits)
