-- ===== src/Examples.antt =====
-- tsutil, json, id.go, encoding, http, user: concrete times, entries, identifiers, texts and nonces.
use keys.Common.{[], ◌∷◌, ◌*◌, codes, ok, err, ◌≡◌, refl, arith}
use keys.Encoding.Is.{is_alpha_numeric, all_alpha_numeric, is_alpha_numeric_char, is_ascii}
use keys.Http.Mem.{
  Mem, nonce_collision, new_mem, now, get, find, nonce_check, expire_after, set, put,
}
use keys.Http.Mem.Nonce.{nonce_check_all, nonce_check-nonce_check_all}
use keys.Common.{some, str_eq}
use keys.Common.Assoc
use keys.Common.Sort.{mem}
use keys.Json.{string_entry, marshal_text}
use keys.Json.Laws.{marshal_text-unescaped}
use keys.User.Validate.{github}
use keys.User.Validate.Url.{Urls, validate_url, github_api_url, parse_url, parts_of, trim_slash}
use keys.User.Validate.Url.Owner.{IsOwned, IsOwned-validate_url}
use keys.Common.Split.{split}

-- An inner quote is written as it is.
marshal_text-unescaped_example :
    marshal_text (string_entry (codes "key") (codes "a\",\"b\":\"c"))
    ≡ ok (codes "\"key\":\"a\",\"b\":\"c\"")
unfolding is_alpha_numeric all_alpha_numeric is_alpha_numeric_char is_ascii
marshal_text-unescaped_example =
    marshal_text-unescaped (codes "key") [] (codes "\",\"b\":\"c") b'a' refl refl (omega arith)

-- An empty store, whose clock moves by a minute with each reading.
abbrev nonces : Mem
nonces = new_mem (record { reading = λ n. n * 60_000_000_000; taken = 0 })

nonce_check-nonce_check_all_example :
    (nonce_check
      (nonce_check_all (nonce_check nonces (codes "x")).1 (codes "y" ∷ []))
      (codes "x")).0
    ≡ err nonce_collision
unfolding nonce_check_all nonce_check expire_after set put get find now new_mem Assoc.lookup
    Assoc.insert str_eq mem
nonce_check-nonce_check_all_example =
    nonce_check-nonce_check_all nonces (codes "x") (codes "y" ∷ []) refl refl

-- All addresses are that of one gist.
abbrev gist : Urls
gist = record {
  parse = λ s.
      some (record {
        scheme = codes "https";
        host = codes "gist.github.com";
        path = codes "/alice/1";
      });
  text_of = λ u. [];
}

IsOwned-validate_url_example :
    IsOwned gist github (codes "alice") (codes "https://gist.github.com/alice/1")
unfolding validate_url github_api_url parse_url parts_of trim_slash split str_eq
IsOwned-validate_url_example =
    IsOwned-validate_url gist github (codes "alice") (codes "https://gist.github.com/alice/1") refl
