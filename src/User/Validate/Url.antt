-- ===== src/User/Validate/Url.antt =====
-- user/validate: the addresses where a user of a service states a key. `url.Parse`, and the text of
-- a parsed address, are parameters.
pub mod Owner
use keys.Common.{
  ℕ, zero, suc, ◌+◌, List, [], ◌∷◌, ◌++◌, Option, none, some, Bool, true, false, ◌&&◌, ◌||◌, not,
  ◌==◌, leb, ltb, Str, str_eq, codes, length, get_elem?, get_last?, if◌then◌else◌, Result, ok, err,
  ◌>>=◌, ◌>>◌, fail_if, map_err,
}
use keys.Common.Split.{split}
use keys.Bech32.Case.{to_lower}
use keys.User.Validate.{
  Service, twitter, github, reddit, https, echo, Error, invalid_url, invalid_scheme, invalid_host,
  invalid_path, name_mismatch, https_validate_name,
}

-- What the code reads of a `url.URL`.
pub record Address : Type 0 where
  pub scheme : Str
  pub host : Str
  pub path : Str

-- `url.Parse`, `none` for an error, and the method `String` of what it gives.
pub record Urls : Type 0 where
  pub parse : Str → Option Address
  pub text_of : Address → Str

-- `strings.TrimPrefix(path, "/")`.
unfoldable pub trim_slash : Str → Str
trim_slash [] = []
trim_slash (c ∷ s) = if c == b'/' then s else c ∷ s

-- `strings.TrimSuffix(path, "/")`.
unfoldable pub trim_last_slash : Str → Str
trim_last_slash [] = []
trim_last_slash (c ∷ []) = if c == b'/' then [] else c ∷ []
trim_last_slash (c ∷ d ∷ s) = c ∷ trim_last_slash (d ∷ s)

-- `strings.ReplaceAll(name, "-", "")`.
unfoldable pub prune : Str → Str
prune [] = []
prune (c ∷ s) = let rest = prune s in if c == b'-' then rest else c ∷ rest

-- The parts of the path of an address.
unfoldable pub parts_of : Address → List Str
parts_of u = split (trim_slash u.path) b'/'

-- Whether the part at the index `i` is there, and is `s`.
unfoldable pub has_part : List Str → ℕ → Str → Bool
has_part parts i s = elim (get_elem? parts i) [ none ↦ false | some p ↦ str_eq p s ]

unfoldable pub is_twitter_host : Str → Bool
is_twitter_host host = str_eq host (codes "twitter.com") || str_eq host (codes "mobile.twitter.com")

unfoldable pub is_reddit_host : Str → Bool
is_reddit_host host =
    str_eq host (codes "reddit.com")
    || (str_eq host (codes "old.reddit.com") || str_eq host (codes "www.reddit.com"))

-- Whether the parts are those of a message of the user on Reddit.
unfoldable pub is_message : List Str → Str → Bool
is_message parts name =
    leb 5 (length parts)
    && (has_part parts 0 (codes "r")
        && (has_part parts 1 (codes "keyspubmsgs")
            && (has_part parts 2 (codes "comments") && has_part parts 4 (prune name))))

module _ (urls : Urls) where
  -- `url.Parse(urs)` and `if err != nil`.
  unfoldable pub parse_url : Str → Result Error Address
  parse_url urs = elim (urls.parse urs) [ none ↦ err invalid_url | some u ↦ ok u ]

  -- `basicURLString(urs)`.
  unfoldable pub basic_url_string : Str → Result Error Str
  basic_url_string urs = do u ← parse_url urs; ok (u.scheme ++ codes "://" ++ u.host ++ u.path)

  -- `s.NormalizeURL(name, urs)`.
  unfoldable pub normalize_url : Service → Str → Result Error Str
  normalize_url twitter urs = basic_url_string (to_lower urs)
  normalize_url github urs = basic_url_string (to_lower urs)
  normalize_url reddit urs = basic_url_string (to_lower urs)
  normalize_url https urs = basic_url_string (to_lower urs)
  normalize_url echo urs = basic_url_string urs

  -- `Github.APIURL(name, urs)`.
  unfoldable pub github_api_url : Str → Str → Result Error Str
  github_api_url name urs = do
    u ← parse_url urs
    fail_if (not (str_eq u.scheme (codes "https"))) invalid_scheme
    fail_if (not (str_eq u.host (codes "gist.github.com"))) invalid_host
    elim (parts_of u) [
      | [] ↦ err invalid_path
      | p ∷ ps ↦ elim ps [
        | [] ↦ err invalid_path
        | id ∷ qs ↦ (do
          fail_if (not (length qs == 0)) invalid_path
          fail_if (not (str_eq p name)) name_mismatch
          ok (codes "https://api.github.com/gists/" ++ id))
      ]
    ]

  -- `Twitter.NameStatusForURL(urs)`.
  unfoldable pub name_status_for_url : Str → Result Error (Str × Str)
  name_status_for_url urs = do
    u ← parse_url urs
    fail_if (not (str_eq u.scheme (codes "https"))) invalid_scheme
    fail_if (not (is_twitter_host u.host)) invalid_host
    fail_if (not (length (parts_of u) == 3)) invalid_path
    elim (get_elem? (parts_of u) 0) [
      | none ↦ err invalid_path
      | some name ↦ elim (get_elem? (parts_of u) 2) [
        | none ↦ err invalid_path
        | some status ↦ ok (name, status)
      ]
    ]

  -- `Twitter.APIURL(name, urs)`.
  unfoldable pub twitter_api_url : Str → Str → Result Error Str
  twitter_api_url name urs = do
    (uname, status) ← name_status_for_url urs
    fail_if (not (str_eq uname name)) name_mismatch
    ok (codes "https://api.twitter.com/2/tweets/" ++ status ++ codes "?expansions=author_id")

  -- `Reddit.APIURL(name, urs)`.
  unfoldable pub reddit_api_url : Str → Str → Result Error Str
  reddit_api_url name urs = do
    u ← parse_url urs
    fail_if (not (str_eq u.scheme (codes "https"))) invalid_scheme
    fail_if (not (is_reddit_host u.host)) invalid_host
    fail_if (not (is_message (parts_of u) name)) invalid_path
    ursj ← parse_url (codes "https://www.reddit.com" ++ trim_last_slash u.path ++ codes ".json")
    ok (urls.text_of ursj)

  -- `Echo.ValidateURL(name, urs)`.
  unfoldable pub echo_validate_url : Str → Str → Result Error Unit
  echo_validate_url name urs = do
    u ← parse_url urs
    fail_if (not (str_eq u.scheme (codes "test"))) invalid_scheme
    fail_if (not (str_eq u.host (codes "echo"))) invalid_host
    fail_if (not (has_part (parts_of u) 0 name)) name_mismatch

  -- `HTTPS.ValidateURL(name, urs)`.
  unfoldable pub https_validate_url : Str → Str → Result Error Unit
  https_validate_url name urs = do
    https_validate_name name
    fail_if
        (not (
          str_eq urs (codes "https://" ++ name ++ codes "/keyspub.txt")
          || str_eq urs (codes "https://" ++ name ++ codes "/.well-known/keyspub.txt")))
        invalid_url

  -- `s.ValidateURL(name, urs)`.
  unfoldable pub validate_url : Service → Str → Str → Result Error Unit
  validate_url twitter name urs = do _ ← twitter_api_url name urs; ok tt
  validate_url github name urs = do _ ← github_api_url name urs; ok tt
  validate_url reddit name urs = do _ ← reddit_api_url name urs; ok tt
  validate_url https name urs = https_validate_url name urs
  validate_url echo name urs = echo_validate_url name urs
