-- ===== src/User/Services.antt =====
-- user/verify.go, user/echo.go and user/services: how a service is asked for a user's statement, and
-- what of its answer is accepted. The client of HTTP and the answers that `encoding/json` reads
-- are parameters, and so is `url.QueryUnescape`.
pub mod Accepted
pub mod Requested
use keys.Common.{
  ℕ, suc, List, [], ◌∷◌, ◌++◌, Option, none, some, Bool, true, false, not, ◌&&◌, ◌||◌, ◌==◌, Str,
  str_eq, codes, length, drop, has_prefix, get_elem?, ltb, if◌then◌else◌, Result, ok, err, ◌>>=◌,
  ◌>>◌, fail_if, map_err, ◌-◌,
}
use keys.Common.Int.{ℤ, pos, int_eq}
use keys.Bech32.Case.{to_lower}
use keys.Crypto.{Crypto}
use keys.Encoding.Saltpack.{Base62, find_saltpack}
use keys.User.User
use keys.User.User.{User, UserFormat, verify_user}
use keys.User.Validate
use keys.User.Validate.{Service, twitter, github, reddit, https, echo, normalize_name}
use keys.User.Validate.Url.{
  Urls, parse_url, parts_of, github_api_url, twitter_api_url, reddit_api_url, name_status_for_url,
}

-- A status is a string; these are the constants.
abbrev pub Status : Type 0
Status = Str

abbrev pub status_ok : Status
status_ok = codes "ok"

abbrev pub status_resource_not_found : Status
status_resource_not_found = codes "resource-not-found"

abbrev pub status_content_not_found : Status
status_content_not_found = codes "content-not-found"

abbrev pub status_statement_invalid : Status
status_statement_invalid = codes "statement-invalid"

abbrev pub status_content_invalid : Status
status_content_invalid = codes "content-invalid"

abbrev pub status_conn_failure : Status
status_conn_failure = codes "connection-fail"

abbrev pub status_failure : Status
status_failure = codes "fail"

-- `nil_file` is the panic on a gist's file that is null.
pub data Error : Type 0 where
  user_error : User.Error → Error
  address_error : Validate.Error → Error
  resource_not_found connection_error invalid_request invalid_json invalid_escape : Error
  content_not_found invalid_owner no_gist_files nil_file : Error
  invalid_author invalid_subreddit no_posts no_children : Error
  invalid_tweet_name tweet_name_not_found invalid_service invalid_address : Error
  invalid_scheme invalid_host invalid_path : Error
  status_not_ok wrong_kid wrong_name wrong_service wrong_seq wrong_url : Error

-- A header's name and its value.
abbrev pub Header : Type 0
Header = Str × Str

-- What `http.NewRequest` and `client.Request` come to: the body, an error of HTTP with its status
-- code, another error, or an address of which there is no request.
pub data Reply : Type 0 where
  body : Option Str → Reply
  http_error : ℕ → Reply
  other_error : Reply
  no_request : Reply

abbrev pub Client : Type 0
Client = Str → List Header → Reply

-- A status with a value or an error, since a Go function returns the status in both cases.
abbrev pub Answer : Type 0 → Type 0
Answer A = Status × Result Error A

pub record Verified : Type 0 where
  pub statement : Str
  pub timestamp : ℤ
  pub proxied : Bool

-- The interface `Service`.
pub record Requester : Type 0 where
  pub request : Client → User → Answer (Option Str)
  pub verify : Str → User → Answer Verified

-- `Request(client, urs, headers)`.
unfoldable pub request_url : Client → Str → List Header → Answer (Option Str)
request_url client urs headers = elim (client urs headers) [
  | body b ↦ (status_ok, ok b)
  | http_error code ↦
      if code == 404
      then (status_resource_not_found, err resource_not_found)
      else (status_conn_failure, err connection_error)
  | other_error ↦ (status_conn_failure, err connection_error)
  | no_request ↦ (status_failure, err invalid_request)
]

-- What the code reads of a gist: the owner's login, and the contents of its files in the order
-- that the map is walked.
pub record Gist : Type 0 where
  pub login : Str
  pub files : List (Option Str)

pub record Tweet : Type 0 where
  pub text : Str
  pub author_id : Str
  -- The identifier and the name of each user of the answer.
  pub tweet_users : List (Str × Str)

pub record Post : Type 0 where
  pub author : Str
  pub subreddit : Str
  pub selftext : Str

pub record UserStatus : Type 0 where
  pub status_kid : Str
  pub status_name : Str
  pub status_seq : ℤ
  pub status_service : Str
  pub status_url : Str
  pub status : Status
  pub statement : Str
  pub verified_at : ℤ

-- The answers of the services, as `encoding/json` reads them.
pub record Answers : Type 0 where
  pub gist_of : Str → Option Gist
  pub tweet_of : Str → Option Tweet
  pub posts_of : Str → Option (List (List Post))
  pub status_of : Str → Option UserStatus
  pub query_unescape : Str → Option Str

-- What the packages share: the codec, the cryptography, the addresses, the JSON of a user, and the
-- answers.
pub record World : Type 0 where
  pub base62 : Base62
  pub crypto : Crypto
  pub urls : Urls
  pub unmarshal : Str → Option UserFormat
  pub answers : Answers

-- `strings.HasSuffix(s, suffix)`.
unfoldable pub has_suffix : Str → Str → Bool
has_suffix s suffix =
    not (ltb (length s) (length suffix)) && str_eq (drop (length s - length suffix) s) suffix

unfoldable pub github_headers : List Header
github_headers = (codes "Accept", codes "application/vnd.github.v3+json") ∷ []

unfoldable pub twitter_headers : Str → List Header
twitter_headers token =
    if str_eq token [] then [] else (codes "Authorization", codes "Bearer " ++ token) ∷ []

-- The loop of twitter's `Verify`, and whether the author's name was found.
unfoldable pub find_author : Str → Str → Bool → List (Str × Str) → Result Error Bool
find_author author_id name found [] = ok found
find_author author_id name found ((id, username) ∷ us) =
    let same = find_author author_id name true us in
    let next = find_author author_id name found us in
    if str_eq author_id id
    then (if not (str_eq (normalize_name twitter username) name)
        then err invalid_tweet_name
        else same)
    else next

-- `checkContent(usr, b)` of the keys.pub cache.
unfoldable pub check_status : UserStatus → User → Result Error Unit
check_status us usr = do
  fail_if (not (str_eq us.status status_ok)) status_not_ok
  fail_if (not (str_eq us.status_kid usr.kid)) wrong_kid
  fail_if (not (str_eq us.status_name usr.name)) wrong_name
  fail_if (not (str_eq us.status_service usr.service)) wrong_service
  fail_if (not (int_eq us.status_seq usr.seq)) wrong_seq
  fail_if (not (str_eq us.status_url usr.url)) wrong_url

-- The status and error of one step, or the next.
abbrev pub or_status : {A B : Type 0} → Status → Result Error A → (A → Answer B) → Answer B
or_status status (err e) next = (status, err e)
or_status status (ok a) next = next a

module _ (w : World) where
  -- `FindVerify(usr, b, isHTML)` of a text that is no HTML.
  unfoldable pub find_verify : User → Str → Answer Str
  find_verify usr b =
      let msg = (find_saltpack (λ s. s) b false).0 in
      let message = codes "BEGIN MESSAGE.\n" ++ msg ++ codes "\nEND MESSAGE." in
      if str_eq msg []
      then (status_content_not_found, err content_not_found)
      else elim (verify_user w.base62 w.crypto w.unmarshal usr message) [
        | err e ↦ (status_statement_invalid, err (user_error e))
        | ok _ ↦ (status_ok, ok message)
      ]

  -- `FindVerify`, and the `Verified` that is made of its statement.
  unfoldable pub verify_content : ℤ → Bool → Str → User → Answer Verified
  verify_content timestamp proxied b usr = elim (find_verify usr b).1 [
    | err e ↦ ((find_verify usr b).0, err e)
    | ok s ↦ (
      (find_verify usr b).0,
      ok (record { statement = s; timestamp = timestamp; proxied = proxied }),
    )
  ]

  unfoldable pub github_service : Requester
  github_service = record {
    request = λ client usr.
        or_status status_failure (map_err address_error (github_api_url w.urls usr.name usr.url))
          λ api_url. request_url client api_url github_headers;
    verify = λ b usr. elim (w.answers.gist_of b) [
      | none ↦ (status_content_invalid, err invalid_json)
      | some gist ↦
          if not (str_eq (normalize_name github gist.login) usr.name)
          then (status_content_invalid, err invalid_owner)
          else elim gist.files [
            | [] ↦ (status_content_invalid, err no_gist_files)
            | f ∷ fs ↦ elim f [
              | none ↦ (status_content_invalid, err nil_file)
              | some content ↦ verify_content (pos 0) false content usr
            ]
          ]
    ];
  }

  unfoldable pub twitter_service : Str → Requester
  twitter_service token = record {
    request = λ client usr.
        or_status status_failure (map_err address_error (twitter_api_url w.urls usr.name usr.url))
          λ api_url. request_url client api_url (twitter_headers token);
    verify = λ b usr. elim (w.answers.tweet_of b) [
      | none ↦ (status_content_invalid, err invalid_json)
      | some tweet ↦
          or_status status_content_invalid
            (find_author tweet.author_id usr.name false tweet.tweet_users)
            λ found.
              if not found
              then (status_content_invalid, err tweet_name_not_found)
              else verify_content (pos 0) false tweet.text usr
    ];
  }

  -- `s.headers(urs)` of Reddit.
  unfoldable pub reddit_headers : Str → Result Error (List Header)
  reddit_headers urs = do
    ur ← map_err address_error (parse_url w.urls urs)
    ok (
        if has_suffix ur.host (codes ".reddit.com")
        then (codes "Host", codes "reddit.com") ∷ []
        else [])

  -- `s.checkContent(name, b)` of Reddit.
  unfoldable pub reddit_content : Str → Str → Result Error Str
  reddit_content name b = elim (w.answers.posts_of b) [
    | none ↦ err invalid_json
    | some posts ↦ elim posts [
      | [] ↦ err no_posts
      | children ∷ _ ↦ elim children [
        | [] ↦ err no_children
        | post ∷ _ ↦ (do
          fail_if (not (str_eq name (to_lower post.author))) invalid_author
          fail_if (not (str_eq (codes "keyspubmsgs") post.subreddit)) invalid_subreddit
          ok post.selftext)
      ]
    ]
  ]

  unfoldable pub reddit_service : Requester
  reddit_service = record {
    request = λ client usr.
        or_status status_failure (map_err address_error (reddit_api_url w.urls usr.name usr.url))
          λ api_url.
            or_status status_failure (reddit_headers api_url)
              λ headers. request_url client api_url headers;
    verify = λ b usr.
        or_status status_content_invalid (reddit_content usr.name b)
          λ msg. verify_content (pos 0) false msg usr;
  }

  unfoldable pub https_service : Requester
  https_service = record {
    request = λ client usr. request_url client usr.url [];
    verify = λ b usr. verify_content (pos 0) false b usr;
  }

  -- The message in the address of an echo.
  unfoldable pub echo_message : User → Result Error Str
  echo_message usr = do
    ur ← map_err address_error (parse_url w.urls usr.url)
    fail_if (not (str_eq ur.scheme (codes "test"))) invalid_scheme
    fail_if (not (str_eq ur.host (codes "echo"))) invalid_host
    fail_if (not (length (parts_of ur) == 3)) invalid_path
    msg ← elim (get_elem? (parts_of ur) 2) [
      | none ↦ err invalid_path
      | some p ↦ elim (w.answers.query_unescape p) [ none ↦ err invalid_escape | some m ↦ ok m ]
    ]
    map_err user_error (verify_user w.base62 w.crypto w.unmarshal usr msg)
    ok msg

  unfoldable pub echo_service : Requester
  echo_service = record {
    request =
        λ client usr. or_status status_failure (echo_message usr) λ msg. (status_ok, ok (some msg));
    verify = λ b usr. verify_content (pos 0) false b usr;
  }

  -- The cache of keys.pub in place of the service.
  unfoldable pub keyspub_service : Requester
  keyspub_service = record {
    request = λ client usr.
        request_url client (codes "https://keys.pub/user/" ++ usr.name ++ codes "@" ++ usr.service)
          [];
    verify = λ b usr. elim (w.answers.status_of b) [
      | none ↦ (status_content_invalid, err invalid_json)
      | some us ↦
          or_status status_content_invalid (check_status us usr)
            λ _. verify_content us.verified_at true us.statement usr
    ];
  }

  -- The address that the proxy for Twitter asks.
  unfoldable pub proxy_url : User → Result Error Str
  proxy_url usr = do
    fail_if (not (str_eq usr.service (codes "twitter"))) invalid_service
    (name, id) ← map_err (λ _. invalid_address) (name_status_for_url w.urls usr.url)
    ok (codes "https://keys.pub/twitter/" ++ usr.kid ++ b'/' ∷ name ++ b'/' ∷ id)

  unfoldable pub proxy_service : Requester
  proxy_service = record {
    request =
        λ client usr. or_status status_failure (proxy_url usr) λ url. request_url client url [];
    verify = λ b usr. verify_content (pos 0) true b usr;
  }

  -- `Lookup(service)`, by the service that the name stands for.
  unfoldable pub requester_of : Str → Service → Requester
  requester_of token twitter = twitter_service token
  requester_of token github = github_service
  requester_of token reddit = reddit_service
  requester_of token https = https_service
  requester_of token echo = echo_service
