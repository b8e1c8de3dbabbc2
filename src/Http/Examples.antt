-- ===== src/Http/Examples.antt =====
-- http: a request with a nonce and a timestamp, with stand-ins for the packages.
use keys.Common.{
  ◌+◌, [], ◌∷◌, Option, none, some, false, Str, str_eq, codes, replicate, if◌then◌else◌, leb, ok,
  err, ◌≡◌, refl, arith,
}
use keys.Common.Int.{pos, itoa, quot, times, wrap, minus, saturate}
use keys.Common.Sort.{mem}
use keys.Common.Assoc
use keys.Common.Assoc.{Assoc}
use keys.Encoding.Saltpack.{Base62}
use keys.EdX25519
use keys.Sigchain.Examples.{toy, toy-IsCrypto, seed, key, key-IsKeyOf, bytes-half, kid}
use keys.Tsutil.{unix_nano, millis_of, parse_millis, time_sub}
use keys.Http.Mem
use keys.Http.Mem.{
  Mem, nonce_collision, nonce_check, get, set, put, expire_after, parse_int, parse_digits, hour,
}
use keys.Http.Mem.Nonce.{nonce_check_all}
use keys.Http.Mem.Race.{System, Reach, begun, passed, both_pass}
use keys.Http.Auth.{
  Url, Urls, IsUrls, Auth, AuthRequest, AuthResult, nonce_error, header, signed_text, negate,
  is_too_far, new_auth_with_url, auth_url_for, new_auth, check_request, authorize,
}
use keys.Http.Auth.Accepted.{IsAuthorized, authorize-IsAuthorized}
use keys.Http.Auth.Replay.{authorize-replayed}
use keys.Http.Auth.Window.{IsNear, is_too_far-IsNear}
use keys.Http.Auth.Made.{check_request-new_auth}

abbrev nonce : Str
nonce = replicate 16 7

abbrev codec : Base62
codec = record { encode = λ b. codes "n7"; decode = λ s. some (replicate 16 7) }

-- A URL whose query is looked up in the values set, and else in those of another.
abbrev set_values : Url → Assoc Str → Url
set_values u kvs = record {
  text = codes "https://keys.pub/a?nonce=n7&ts=1000";
  query = λ k. elim (Assoc.lookup k (Assoc.insert_all kvs [])) [ none ↦ u.query k | some v ↦ v ];
}

abbrev bare : Url
bare = record { text = codes "https://keys.pub/a"; query = λ k. [] }

abbrev url : Url
url = set_values bare ((codes "nonce", codes "n7") ∷ (codes "ts", codes "1000") ∷ [])

abbrev urls : Urls
urls = record {
  parse = λ s. some (if str_eq s (codes "https://keys.pub/a") then bare else url);
  set_query = set_values;
}

urls-IsUrls : IsUrls urls
urls-IsUrls = record { query-set_query = λ u kvs k. refl }

abbrev decode64 : Str → Option Str
decode64 s = some (replicate 64 1)

abbrev signed : Auth
signed = new_auth_with_url toy (codes "GET") url [] key

abbrev request : AuthRequest Mem
request = record {
  method = codes "GET";
  url = codes "https://keys.pub/a?nonce=n7&ts=1000";
  content_hash = [];
  kid = kid;
  auth = header signed;
  now = unix_nano (pos 2_000_000_000);
  nonce_check = some nonce_check;
}

abbrev result : AuthResult
result = record {
  result_kid = kid;
  result_url = url;
  nonce = codes "n7";
  timestamp = unix_nano (pos 1_000_000_000);
}

-- What the check of a time computes with.
run_time : {A : Type 0} → A → A
unfolding is_too_far time_sub minus saturate negate parse_millis times wrap millis_of quot itoa
    str_eq
run_time r = r

near : is_too_far (unix_nano (pos 2_000_000_000)) (parse_millis (pos 1000)) ≡ false
unfolding run_time
near = refl

within_half_hour : IsNear (time_sub (unix_nano (pos 2_000_000_000)) (parse_millis (pos 1000)))
within_half_hour = is_too_far-IsNear 2_000_000_000 (pos 1000) near

made :
    new_auth toy urls codec
      (codes "GET")
      (codes "https://keys.pub/a")
      []
      (unix_nano (pos 1_000_000_000))
      nonce
      key
    ≡ ok signed
unfolding new_auth auth_url_for str_eq itoa millis_of quot
made = refl

check_request-new_auth_example : check_request toy urls codec decode64 request ≡ ok result
unfolding run_time new_auth_with_url signed_text EdX25519.sign_detached
check_request-new_auth_example =
    check_request-new_auth toy urls codec decode64 urls-IsUrls toy-IsCrypto seed key key-IsKeyOf
      bytes-half (omega arith) request (codes "https://keys.pub/a") nonce
      (unix_nano (pos 1_000_000_000)) 1000 signed made refl refl refl refl (λ e. cc) refl refl refl
      (omega arith) near

checked : check_request toy urls codec decode64 request ≡ ok result
unfolding run_time new_auth_with_url signed_text EdX25519.sign_detached
checked =
    check_request-new_auth toy urls codec decode64 urls-IsUrls toy-IsCrypto seed key key-IsKeyOf
      bytes-half (omega arith) request (codes "https://keys.pub/a") nonce
      (unix_nano (pos 1_000_000_000)) 1000 signed made refl refl refl refl (λ e. cc) refl refl refl
      (omega arith) near

abbrev store : Mem
store = Mem.new_mem (record { reading = λ n. 2_000_000_000 + n; taken = 0 })

-- What a nonce check computes with.
run_nonce : {A : Type 0} → A → A
unfolding nonce_check get set put expire_after Mem.find Mem.now Mem.new_mem Assoc.lookup
    Assoc.insert str_eq
run_nonce r = r

authorized : (authorize toy urls codec decode64 store request).0 ≡ ok result
unfolding authorize run_nonce
authorized = rw (authorize, checked) refl

authorize-IsAuthorized_example : IsAuthorized toy urls codec decode64 store request result
authorize-IsAuthorized_example =
    authorize-IsAuthorized toy urls codec decode64 store request result authorized

authorize-replayed_example :
    (authorize toy urls codec decode64
      (nonce_check_all
        (authorize toy urls codec decode64 store request).1
        (codes "m1" ∷ codes "m2" ∷ []))
      request).0
    ≡ (if leb
          ((Mem.now (get store (codes "n7")).1).0 + hour)
          (Mem.now (
            nonce_check_all
              (authorize toy urls codec decode64 store request).1
              (codes "m1" ∷ codes "m2" ∷ []))).0
        then ok result
        else err (nonce_error nonce_collision))
unfolding mem str_eq
authorize-replayed_example =
    authorize-replayed toy urls codec decode64 store request request result result
      (codes "m1" ∷ codes "m2" ∷ []) refl refl authorized checked refl refl

both_pass_example :
    (t : System) × Reach (codes "n7") (record { store = store; one = begun; two = begun }) t
    × (t.one ≡ passed)
    × (t.two ≡ passed)
unfolding Mem.new_mem Assoc.lookup
both_pass_example = both_pass store (codes "n7") refl
