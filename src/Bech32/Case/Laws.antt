-- ===== src/Bech32/Case/Laws.antt =====
-- The case maps on ASCII letters.
use keys.Common.{
  suc, ℕ, ◌<◌, [], ◌∷◌, ◌++◌, false, Str, str_eq, str_eq_iff, length, All, ◌≡◌, ◌⊎◌, refl, arith,
  ap, ap₂, inl, inr, Bool-cases,
}
use keys.Bech32.Case.{lower_char, upper_char, to_lower, to_upper, is_mixed}

pub length-to_lower : (s : Str) → length (to_lower s) ≡ length s
unfolding to_lower
length-to_lower [] = refl
length-to_lower (c ∷ s) = ap suc (length-to_lower s)

pub length-to_upper : (s : Str) → length (to_upper s) ≡ length s
unfolding to_upper
length-to_upper [] = refl
length-to_upper (c ∷ s) = ap suc (length-to_upper s)

pub to_lower-append : (s t : Str) → to_lower (s ++ t) ≡ to_lower s ++ to_lower t
unfolding to_lower
to_lower-append [] t = refl
to_lower-append (c ∷ s) t = ap (◌∷◌ (lower_char c)) (to_lower-append s t)

pub to_upper-append : (s t : Str) → to_upper (s ++ t) ≡ to_upper s ++ to_upper t
unfolding to_upper
to_upper-append [] t = refl
to_upper-append (c ∷ s) t = ap (◌∷◌ (upper_char c)) (to_upper-append s t)

lower_char-lower_char : (c : ℕ) → lower_char (lower_char c) ≡ lower_char c
unfolding lower_char
lower_char-lower_char c = ground arith

upper_char-upper_char : (c : ℕ) → upper_char (upper_char c) ≡ upper_char c
unfolding upper_char
upper_char-upper_char c = ground arith

upper_char-lower_char : (c : ℕ) → upper_char (lower_char c) ≡ upper_char c
unfolding lower_char upper_char
upper_char-lower_char c = ground arith

pub to_lower-to_lower : (s : Str) → to_lower (to_lower s) ≡ to_lower s
unfolding to_lower
to_lower-to_lower [] = refl
to_lower-to_lower (c ∷ s) = ap₂ ◌∷◌ (lower_char-lower_char c) (to_lower-to_lower s)

pub to_upper-to_upper : (s : Str) → to_upper (to_upper s) ≡ to_upper s
unfolding to_upper
to_upper-to_upper [] = refl
to_upper-to_upper (c ∷ s) = ap₂ ◌∷◌ (upper_char-upper_char c) (to_upper-to_upper s)

pub to_upper-to_lower : (s : Str) → to_upper (to_lower s) ≡ to_upper s
unfolding to_upper to_lower
to_upper-to_lower [] = refl
to_upper-to_lower (c ∷ s) = ap₂ ◌∷◌ (upper_char-lower_char c) (to_upper-to_lower s)

lower_char-lt : (c : ℕ) → c < 127 → lower_char c < 256
unfolding lower_char
lower_char-lt c h = ground arith

pub All-to_lower : (s : Str) → All (λ c. c < 127) s → All (λ c. c < 256) (to_lower s)
unfolding to_lower
All-to_lower [] _ = tt
All-to_lower (c ∷ s) (h, hs) = (lower_char-lt c h, All-to_lower s hs)

-- A text in one case is not mixed.
pub is_mixed_lower : (s : Str) → to_lower s ≡ s → is_mixed s ≡ false
unfolding is_mixed
is_mixed_lower s h = ground (arith, str_eq_iff (to_lower s) s)

pub is_mixed_upper : (s : Str) → to_upper s ≡ s → is_mixed s ≡ false
unfolding is_mixed
is_mixed_upper s h = ground (arith, str_eq_iff (to_upper s) s)

pub is_mixed-cases :
    (s : Str)
    → is_mixed s ≡ false
    → (to_lower s ≡ s) ⊎ ((str_eq (to_lower s) s ≡ false) × (to_upper s ≡ s))
unfolding is_mixed
is_mixed-cases s h = elim (Bool-cases (str_eq (to_lower s) s)) [
  | inl lower ↦ inl ((str_eq_iff (to_lower s) s).0 lower)
  | inr other ↦ inr (other, ground (arith, str_eq_iff (to_upper s) s))
]
