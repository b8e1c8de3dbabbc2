-- ===== src/User/Validate/Names.antt =====
-- user/validate: a name that a service takes is in its normal form.
use keys.Common.{ℕ, [], ◌∷◌, Bool, true, false, ◌==◌, Str, if◌then◌else◌, ok, ◌≡◌, refl, arith, ap₂}
use keys.Bech32.Case.{to_lower, lower_char}
use keys.Encoding.Is.{has_upper}
use keys.User.Validate.{
  Service, twitter, github, reddit, https, echo, is_lower_alpha_numeric, all_lower_alpha_numeric,
  is_name, is_dash, is_underscore, is_dash_or_underscore, normalize_name, validate_name,
  twitter_validate_name, github_validate_name, reddit_validate_name, https_validate_name,
  echo_validate_name, twitter_normalize_name, github_normalize_name, reddit_normalize_name,
  https_normalize_name, echo_normalize_name,
}

-- The extra characters are no letters in upper case.
to_lower-all_lower_alpha_numeric :
    (extra : ℕ → Bool) (s : Str)
    → ((c : ℕ) → extra c ≡ true → lower_char c ≡ c)
    → all_lower_alpha_numeric extra s ≡ true
    → to_lower s ≡ s
unfolding all_lower_alpha_numeric is_lower_alpha_numeric to_lower lower_char
to_lower-all_lower_alpha_numeric extra [] e h = refl
to_lower-all_lower_alpha_numeric extra (c ∷ s) e h =
    ap₂ ◌∷◌ (ground (arith, e c)) (to_lower-all_lower_alpha_numeric extra s e (ground arith))

to_lower-has_upper : (s : Str) → has_upper s ≡ false → to_lower s ≡ s
unfolding has_upper to_lower lower_char
to_lower-has_upper [] h = refl
to_lower-has_upper (c ∷ s) h = ap₂ ◌∷◌ (ground arith) (to_lower-has_upper s (ground arith))

to_lower-is_name :
    (extra : ℕ → Bool) (s : Str)
    → ((c : ℕ) → extra c ≡ true → lower_char c ≡ c)
    → is_name extra s ≡ true
    → to_lower s ≡ s
unfolding is_name
to_lower-is_name extra [] e h = absurd (cc h)
to_lower-is_name extra (c ∷ s) e h = to_lower-all_lower_alpha_numeric extra (c ∷ s) e h

lower_char-is_dash : (c : ℕ) → is_dash c ≡ true → lower_char c ≡ c
unfolding is_dash lower_char
lower_char-is_dash c h = ground arith

lower_char-is_underscore : (c : ℕ) → is_underscore c ≡ true → lower_char c ≡ c
unfolding is_underscore lower_char
lower_char-is_underscore c h = ground arith

lower_char-is_dash_or_underscore : (c : ℕ) → is_dash_or_underscore c ≡ true → lower_char c ≡ c
unfolding is_dash_or_underscore lower_char
lower_char-is_dash_or_underscore c h = ground arith

-- A name of Twitter does not begin with `@`.
without_at :
    (name : Str)
    → is_name is_underscore name ≡ true
    → (elim name [ [] ↦ [] | c ∷ s ↦ if c == b'@' then s else c ∷ s ]) ≡ name
unfolding is_name all_lower_alpha_numeric is_lower_alpha_numeric is_underscore
without_at [] h = refl
without_at (c ∷ s) h = ground arith

-- A name that `ValidateName` of a service takes is one that `NormalizeName` of that service leaves
-- as it is.
pub normalize_name-validate_name :
    (service : Service) (name : Str)
    → validate_name service name ≡ ok tt
    → normalize_name service name ≡ name
unfolding validate_name normalize_name twitter_validate_name github_validate_name
    reddit_validate_name https_validate_name echo_validate_name twitter_normalize_name
    github_normalize_name reddit_normalize_name https_normalize_name echo_normalize_name
normalize_name-validate_name twitter name h =
    let valid : is_name is_underscore name ≡ true = ground arith in
    rw
      (
        normalize_name,
        twitter_normalize_name,
        to_lower-is_name is_underscore name lower_char-is_underscore valid,
      )
      (without_at name valid)
normalize_name-validate_name github name h =
    to_lower-is_name is_dash name lower_char-is_dash (ground arith)
normalize_name-validate_name reddit name h =
    to_lower-is_name is_dash_or_underscore name lower_char-is_dash_or_underscore (ground arith)
normalize_name-validate_name https name h = to_lower-has_upper name (ground arith)
normalize_name-validate_name echo name h =
    to_lower-is_name is_dash_or_underscore name lower_char-is_dash_or_underscore (ground arith)
