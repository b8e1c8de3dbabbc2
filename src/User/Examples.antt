-- ===== src/User/Examples.antt =====
-- user: a user of the service echo, whose message is signed and whose statement is in a chain, with
-- stand-ins for the packages.
use keys.Common.{
  ℕ, zero, suc, ◌+◌, [], ◌∷◌, ◌++◌, Option, none, some, true, false, Str, str_eq, has_prefix, codes,
  replicate, All, ◌⊎◌, ok, err, ◌≡◌, refl, ap, arith, ◌∙◌, ◌==◌,
}
use keys.Common.Int.{pos, quot}
use keys.Common.Split.{split}
use keys.Encoding.Words.{trim_saltpack, is_base62, is_allowed}
use keys.Encoding.Saltpack
use keys.Encoding.Codecs.{
  Codec, Codecs, AreCodecs, encode_text, decode_text, fields, decode_text-encode_text,
}
use keys.Encoding.Parse.{saltpack}
use keys.Encoding.Saltpack.{Base62, IsBase62, encode_words, decode_words, decode_words-encode_words}
use keys.Id
use keys.Statement.{Statement}
use keys.Sigchain.{new_sigchain, append, find_last, find_last_in}
use keys.Sigchain.Invariant.{new_sigchain-IsValid}
use keys.Sigchain.Examples.{toy, kid, key, run_chain}
use keys.Tsutil.{unix_nano, millis_of}
use keys.User.User
use keys.User.User.{
  User, UserFormat, already_set, user_bytes, user_entries, verify_user, validate, find_in_sigchain,
  new_user_statement,
}
use keys.User.Signing.{
  IsSigned, verify_user-IsSigned, format_of, find_in_sigchain-append, new_user_statement-twice,
}
use keys.User.Services.{
  Answers, World, Client, other_error, status_ok, requester_of, echo_service, github_service,
  echo_message, verify_content, find_verify, request_url,
}
use keys.User.Services.Accepted.{Accepts, requester_of-IsSoundCheck}
use keys.User.Services.Requested.{
  IsVerified, IsFailed, requester_of-IsSoundRequest, update_result_lem,
}
use keys.User.Result.{UserResult, request_verify, updated, update_result, empty_result}
use keys.User.Validate.{
  github, normalize_name, github_normalize_name, lookup_service, echo, validate_name,
  echo_validate_name, is_name, all_lower_alpha_numeric, is_lower_alpha_numeric,
  is_dash_or_underscore,
}
use keys.User.Validate.Url.{
  Urls, validate_url, echo_validate_url, parse_url, parts_of, trim_slash, has_part,
}

-- A codec whose texts are runs of the letter a, one for each byte, behind each of which stands a b.
unary : ℕ → Str → Str
unary zero s = b'b' ∷ s
unary (suc n) s = b'a' ∷ unary n s

unary_text : Str → Str
unfolding unary
unary_text [] = []
unary_text (c ∷ b) = unary c (unary_text b)

unary_from : ℕ → Str → Str
unary_from n [] = []
unary_from n (c ∷ s) = elim (c == b'a') [ true ↦ unary_from (suc n) s | false ↦ n ∷ unary_from 0 s ]

abbrev unary_codec : Base62
unary_codec = record { encode = unary_text; decode = λ s. some (unary_from 0 s) }

unary-All :
    (n : ℕ) (s : Str) → All (λ c. is_base62 c ≡ true) s → All (λ c. is_base62 c ≡ true) (unary n s)
unfolding unary is_base62
unary-All zero s h = (refl, h)
unary-All (suc n) s h = (refl, unary-All n s h)

unary_text-All : (b : Str) → All (λ c. is_base62 c ≡ true) (unary_text b)
unfolding unary_text
unary_text-All [] = tt
unary_text-All (c ∷ b) = unary-All c (unary_text b) (unary_text-All b)

unary_from-unary : (n k : ℕ) (s : Str) → unary_from k (unary n s) ≡ (n + k) ∷ unary_from 0 s
unfolding unary unary_from
unary_from-unary zero k s = ap (λ x. x ∷ unary_from 0 s) (omega arith)
unary_from-unary (suc n) k s =
    unary_from-unary n (suc k) s ∙ ap (λ x. x ∷ unary_from 0 s) (omega arith)

unary_from-unary_text : (b : Str) → unary_from 0 (unary_text b) ≡ b
unfolding unary_text unary_from
unary_from-unary_text [] = refl
unary_from-unary_text (c ∷ b) =
    unary_from-unary c 0 (unary_text b)
    ∙ ap (λ x. x ∷ unary_from 0 (unary_text b)) {y = c} (omega arith)
    ∙ ap (λ t. c ∷ t) (unary_from-unary_text b)

unary_codec-IsBase62 : IsBase62 unary_codec
unary_codec-IsBase62 = record {
  all_base62 = unary_text-All;
  decode-encode_base62 = λ b. ap some (unary_from-unary_text b);
}

abbrev self : Codec
self = record { encoder = λ b. b; decoder = some }

abbrev codecs : Codecs
codecs = record {
  hex_codec = self;
  base32_codec = self;
  raw_base32 = λ b. b;
  base58_codec = self;
  base62_codec = unary_codec;
  decode_base64 = λ s. some (3 ∷ 1 ∷ 4 ∷ []);
  raw_base64 = λ b. b;
  new_mnemonic = some;
  mnemonic_bytes = some;
}

codecs-AreCodecs : AreCodecs codecs (3 ∷ 1 ∷ 4 ∷ [])
codecs-AreCodecs = record {
  hex_back = refl;
  base32_back = refl;
  base58_back = refl;
  base62_laws = unary_codec-IsBase62;
  base64_back = refl;
}

decode_text-encode_text_example :
    (s : Str) × (encode_text codecs (3 ∷ 1 ∷ 4 ∷ []) saltpack [] ≡ ok s)
    × (decode_text codecs s saltpack ≡ ok (3 ∷ 1 ∷ 4 ∷ []))
decode_text-encode_text_example =
    decode_text-encode_text codecs (3 ∷ 1 ∷ 4 ∷ []) codecs-AreCodecs saltpack (λ e. cc) (λ e. cc)

takes_words_apart : fields (codes " a  b ") [] ≡ codes "a" ∷ codes "b" ∷ []
unfolding fields Saltpack.is_space
takes_words_apart = refl

abbrev pub bob : User
bob = record {
  name = codes "bob";
  kid = kid;
  seq = pos 1;
  service = codes "echo";
  url = codes "test://echo/bob";
}

-- Every message holds a signature and a text, and every text is read as bob.
abbrev pub armor : Base62
armor = record { encode = λ b. codes "abc"; decode = λ s. some (replicate 64 1 ++ codes "bob") }

abbrev pub reads_bob : Str → Option UserFormat
reads_bob b = some (format_of bob)

abbrev pub message : Str
message = codes "BEGIN MESSAGE.\nabc\nEND MESSAGE."

-- What the search for a message computes with.
unfoldable pub run_find : {A : Type 0} → A → A
unfolding Saltpack.find_saltpack Saltpack.match_saltpack Saltpack.capture Saltpack.trim_left
    Saltpack.trim_right Saltpack.trim_space Saltpack.is_space Saltpack.squeeze_spaces
    Saltpack.remove_escapes Saltpack.is_newline Saltpack.decode_saltpack trim_saltpack is_base62
    is_allowed has_prefix
run_find r = r

-- What a user computes with.
unfoldable pub run_user : {A : Type 0} → A → A
unfolding run_chain User.check_same User.user_from Id.parse_id validate lookup_service
    User.validate_service_and_name validate_name echo_validate_name is_name all_lower_alpha_numeric
    is_lower_alpha_numeric is_dash_or_underscore validate_url echo_validate_url parse_url parts_of
    trim_slash has_part split str_eq user_bytes user_entries
run_user r = r

verify_user-IsSigned_example : IsSigned armor toy reads_bob bob message
unfolding verify_user run_find run_user
verify_user-IsSigned_example = verify_user-IsSigned armor toy reads_bob bob message refl

-- Every address is that of bob, with a message in it.
abbrev pub urls : Urls
urls = record {
  parse =
      λ s. some (record { scheme = codes "test"; host = codes "echo"; path = codes "/bob/x/y" });
  text_of = λ a. [];
}

abbrev pub bob_statement : Statement
bob_statement = record {
  sig = some (replicate 64 1);
  kid = kid;
  contents = some (
      codes
        "{\"k\":\"kex1qurswpc8qurswpc8qurswpc8qurswpc8qurswpc8qurswpc8qurs8hmgn5\",\"n\":\"bob\",\"sq\":1,\"sr\":\"echo\",\"u\":\"test://echo/bob\"}");
  seq = pos 1;
  prev = none;
  revoke = pos 0;
  typ = codes "user";
  timestamp = unix_nano (pos 1_600_000_000_000_000_000);
  nonce = none;
}

bob_made :
    new_user_statement urls reads_bob toy
      (new_sigchain kid)
      bob
      key
      (unix_nano (pos 1_600_000_000_000_000_000))
    ≡ ok bob_statement
unfolding new_user_statement find_in_sigchain find_last find_last_in run_user
bob_made = refl

find_in_sigchain-append_example :
    find_in_sigchain urls reads_bob (append (new_sigchain kid) bob_statement) ≡ ok (some bob)
find_in_sigchain-append_example =
    find_in_sigchain-append toy urls reads_bob (new_sigchain kid) bob key
      (unix_nano (pos 1_600_000_000_000_000_000)) bob_statement (new_sigchain-IsValid toy kid)
      (unfold new_sigchain in omega arith) (λ b e. refl) bob_made

bob_valid : validate urls bob ≡ ok tt
unfolding run_user
bob_valid = refl

new_user_statement-twice_example :
    new_user_statement urls reads_bob toy
      (append (new_sigchain kid) bob_statement)
      bob
      key
      (unix_nano (pos 1_700_000_000_000_000_000))
    ≡ err already_set
new_user_statement-twice_example =
    new_user_statement-twice toy urls reads_bob (new_sigchain kid) bob key
      (unix_nano (pos 1_600_000_000_000_000_000)) bob_statement (new_sigchain-IsValid toy kid)
      (unfold new_sigchain in omega arith) (λ b e. refl) bob_made bob key
      (unix_nano (pos 1_700_000_000_000_000_000)) bob_valid

-- The answers of services that have none, but for the message in an address.
abbrev answers : Answers
answers = record {
  gist_of = λ b. some (record { login = codes "Bob"; files = some message ∷ [] });
  tweet_of = λ b. none;
  posts_of = λ b. none;
  status_of = λ b. none;
  query_unescape = λ s. some message;
}

abbrev pub world : World
world = record {
  base62 = armor;
  crypto = toy;
  urls = urls;
  unmarshal = reads_bob;
  answers = answers;
}

abbrev offline : Client
offline urs headers = other_error

-- What a service computes with.
unfoldable pub run_service : {A : Type 0} → A → A
unfolding run_find run_user verify_user requester_of echo_service github_service echo_message
    verify_content find_verify request_verify updated update_result empty_result normalize_name
    github_normalize_name request_url
run_service r = r

requester_of-IsSoundCheck_example :
    (((requester_of world [] github).verify (codes "{}") bob).0 ≡ status_ok)
    × Accepts world bob message
unfolding run_service
requester_of-IsSoundCheck_example =
    requester_of-IsSoundCheck world [] github (codes "{}") bob
      (record { statement = message; timestamp = pos 0; proxied = false }) refl

asks_service : ((requester_of world [] echo).request offline bob).0 ≡ status_ok
unfolding run_service
asks_service = requester_of-IsSoundRequest world [] echo offline bob (some message) refl

abbrev unchecked : UserResult
unchecked = record {
  failure = none;
  status = [];
  timestamp = pos 0;
  user = some bob;
  statement = [];
  proxied = false;
  verified_at = pos 0;
}

update_result_lem_example :
    (after : UserResult) × (update_result
        (requester_of world [] echo)
        unchecked
        offline
        (unix_nano (pos 9_000_000))
      ≡ some after)
    × (after.user ≡ some bob)
    × (after.timestamp ≡ pos 9)
    × (IsVerified world bob after ⊎ IsFailed unchecked after)
unfolding millis_of quot
update_result_lem_example =
    update_result_lem world (requester_of world [] echo) (requester_of-IsSoundRequest world [] echo)
      (requester_of-IsSoundCheck world [] echo) unchecked offline (unix_nano (pos 9_000_000)) bob
      refl
