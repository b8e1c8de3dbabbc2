-- ===== src/User/Validate.antt =====
-- user/validate: the names of users at a service, as `validator.go` and the file of each service
-- test them. The expressions of validator.go and https.go are tests on characters.
pub mod Names
pub mod Url
use keys.Common.{
  ℕ, zero, suc, ◌+◌, List, [], ◌∷◌, Option, none, some, Bool, true, false, ◌&&◌, ◌||◌, not, ◌==◌,
  leb, ltb, Str, str_eq, codes, length, get_last?, if◌then◌else◌, Result, ok, err, ◌>>=◌, ◌>>◌,
  fail_if,
}
use keys.Common.Split.{split}
use keys.Bech32.Case.{to_lower}
use keys.Encoding.Is.{is_ascii, has_upper}

pub data Service : Type 0 where
  twitter github reddit https echo : Service

pub data Error : Type 0 where
  service_not_found : Str → Error
  invalid_character too_long not_ascii not_lowercase not_a_domain : Error
  invalid_url invalid_scheme invalid_host invalid_path name_mismatch : Error

-- `Lookup(service)`.
unfoldable pub lookup_service : Str → Result Error Service
lookup_service s =
    if str_eq s (codes "twitter")
    then ok twitter
    else if str_eq s (codes "github")
    then ok github
    else if str_eq s (codes "reddit")
    then ok reddit
    else if str_eq s (codes "https")
    then ok https
    else if str_eq s (codes "echo")
    then ok echo
    else err (service_not_found s)

-- `s.ID()`.
unfoldable pub id_of : Service → Str
id_of twitter = codes "twitter"
id_of github = codes "github"
id_of reddit = codes "reddit"
id_of https = codes "https"
id_of echo = codes "echo"

unfoldable pub is_lower_alpha_numeric : ℕ → Bool
is_lower_alpha_numeric c = (leb b'a' c && leb c b'z') || (leb b'0' c && leb c b'9')

-- Every character is a letter in lower case, a digit, or one of `extra`.
unfoldable pub all_lower_alpha_numeric : (ℕ → Bool) → Str → Bool
all_lower_alpha_numeric extra [] = true
all_lower_alpha_numeric extra (c ∷ s) =
    (is_lower_alpha_numeric c || extra c) && all_lower_alpha_numeric extra s

-- The three expressions `^[a-z0-9...]+$`.
unfoldable pub is_name : (ℕ → Bool) → Str → Bool
is_name extra [] = false
is_name extra (c ∷ s) = all_lower_alpha_numeric extra (c ∷ s)

unfoldable pub is_dash : ℕ → Bool
is_dash c = c == b'-'

unfoldable pub is_underscore : ℕ → Bool
is_underscore c = c == b'_'

unfoldable pub is_dash_or_underscore : ℕ → Bool
is_dash_or_underscore c = c == b'-' || c == b'_'

-- `[a-z0-9]` and `[a-z0-9-]` of `regexHostname`, in either case.
unfoldable pub is_host_char : ℕ → Bool
is_host_char c =
    (leb b'a' c && leb c b'z') || ((leb b'A' c && leb c b'Z') || (leb b'0' c && leb c b'9'))

-- What `regexHostname` asks of the characters behind the first.
unfoldable pub is_host_rest : Str → Bool
is_host_rest [] = true
is_host_rest (c ∷ []) = is_host_char c
is_host_rest (c ∷ d ∷ s) = (is_host_char c || is_dash c) && is_host_rest (d ∷ s)

-- `regexHostname`.
unfoldable pub is_host_label : Str → Bool
is_host_label [] = false
is_host_label (c ∷ s) = is_host_char c && is_host_rest s

unfoldable pub all_host_labels : List Str → Bool
all_host_labels [] = true
all_host_labels (p ∷ ps) = is_host_label p && all_host_labels ps

-- `isValidHostname(s)`.
unfoldable pub is_valid_hostname : Str → Bool
is_valid_hostname s =
    let parts = split s b'.' in
    if ltb (length parts) 2
    then false
    else if not (all_host_labels parts)
    then false
    else leb 2 (length (elim (get_last? parts) [ none ↦ [] | some p ↦ p ]))

unfoldable pub is_digit : ℕ → Bool
is_digit c = leb b'0' c && leb c b'9'

-- The number of dots with a digit behind them.
unfoldable pub dots_before_digits : Str → ℕ
dots_before_digits [] = 0
dots_before_digits (c ∷ []) = 0
dots_before_digits (c ∷ d ∷ s) =
    let rest = dots_before_digits (d ∷ s) in if c == b'.' && is_digit d then suc rest else rest

-- `regexIP`, of a text without a newline: a digit, and three dots with a digit behind them.
unfoldable pub is_ip : Str → Bool
is_ip [] = false
is_ip (c ∷ s) = is_digit c && leb 3 (dots_before_digits s)

unfoldable pub twitter_normalize_name : Str → Str
twitter_normalize_name name = elim (to_lower name) [
  | [] ↦ []
  | c ∷ s ↦ if c == b'@' then s else c ∷ s
]

unfoldable pub github_normalize_name : Str → Str
github_normalize_name name = to_lower name

unfoldable pub reddit_normalize_name : Str → Str
reddit_normalize_name name = to_lower name

unfoldable pub https_normalize_name : Str → Str
https_normalize_name name = to_lower name

unfoldable pub echo_normalize_name : Str → Str
echo_normalize_name name = to_lower name

-- `s.NormalizeName(name)`.
unfoldable pub normalize_name : Service → Str → Str
normalize_name twitter name = twitter_normalize_name name
normalize_name github name = github_normalize_name name
normalize_name reddit name = reddit_normalize_name name
normalize_name https name = https_normalize_name name
normalize_name echo name = echo_normalize_name name

unfoldable pub twitter_validate_name : Str → Result Error Unit
twitter_validate_name name = do
  fail_if (not (is_name is_underscore name)) invalid_character
  fail_if (ltb 15 (length name)) too_long

unfoldable pub github_validate_name : Str → Result Error Unit
github_validate_name name = do
  fail_if (not (is_name is_dash name)) invalid_character
  fail_if (ltb 39 (length name)) too_long

unfoldable pub reddit_validate_name : Str → Result Error Unit
reddit_validate_name name = do
  fail_if (not (is_name is_dash_or_underscore name)) invalid_character
  fail_if (ltb 20 (length name)) too_long

unfoldable pub https_validate_name : Str → Result Error Unit
https_validate_name name = do
  fail_if (not (is_ascii name)) not_ascii
  fail_if (has_upper name) not_lowercase
  fail_if (ltb 256 (length name)) too_long
  fail_if (not (is_valid_hostname name)) not_a_domain
  fail_if (is_ip name) not_a_domain

unfoldable pub echo_validate_name : Str → Result Error Unit
echo_validate_name name = do
  fail_if (not (is_name is_dash_or_underscore name)) invalid_character
  fail_if (ltb 39 (length name)) too_long

-- `s.ValidateName(name)`.
unfoldable pub validate_name : Service → Str → Result Error Unit
validate_name twitter name = twitter_validate_name name
validate_name github name = github_validate_name name
validate_name reddit name = reddit_validate_name name
validate_name https name = https_validate_name name
validate_name echo name = echo_validate_name name
