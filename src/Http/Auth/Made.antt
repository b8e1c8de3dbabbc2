-- ===== src/Http/Auth/Made.antt =====
-- http/auth.go: a request whose header `newAuth` has made passes the checks.
use keys.Common.{
  append_assoc, zero, suc, ℕ, ◌≤◌, ◌<◌, [], ◌∷◌, ◌++◌, Option, none, some, true, false, Str, str_eq,
  str_eq_self, str_eq_ne, codes, length, drop, get_elem?, All, ok, Result-cases, Option-cases, ◌≡◌,
  ◌≢◌, inl, inr, refl, sym, ap, ap₂, arith, ◌∙◌,
}
use keys.Common.Assoc
use keys.Common.Assoc.{Assoc}
use keys.Common.Int.{pos, itoa, max_int}
use keys.Common.Split.{Lacks, split-append, split-Lacks}
use keys.Bech32
use keys.Crypto.{Crypto, IsCrypto}
use keys.EdX25519
use keys.EdX25519.Laws.{IsKeyOf, public_key_from_id_lem, verify_detached-sign_detached}
use keys.Encoding.Base64
use keys.Encoding.Saltpack.{Base62}
use keys.Id.{parse_id}
use keys.Tsutil.{Time, millis_of, parse_millis}
use keys.Http.Mem.{parse_int}
use keys.Http.Auth.{
  Url, Urls, IsUrls, Auth, AuthRequest, header, signed_text, is_too_far, fields_of,
  new_auth_with_url, auth_url_for, new_auth, nonce_of, timestamp_of, check_signature, check_request,
}
use keys.Http.Auth.Digits.{parse_int-itoa}

or_zero : Option ℕ → ℕ
or_zero none = 0
or_zero (some c) = c

get_elem?-ne : (xs : Str) (n : ℕ) → Lacks b':' xs → or_zero (get_elem? xs n) ≢ b':'
unfolding or_zero
get_elem?-ne [] n h e = omega arith
get_elem?-ne (x ∷ xs) zero (h, _) e = h e
get_elem?-ne (x ∷ xs) (suc n) (_, hs) e = get_elem?-ne xs n hs e

char_of-ne : (d : ℕ) → Base64.char_of d ≢ b':'
unfolding Base64.char_of or_zero
char_of-ne d = get_elem?-ne Base64.alphabet d (omega arith)

-- Base64 has no colon.
encode-Lacks : (s : Str) → Lacks b':' (Base64.encode s)
unfolding Base64.encode
encode-Lacks [] = tt
encode-Lacks (a ∷ []) = (char_of-ne _, (char_of-ne _, (omega arith, (omega arith, tt))))
encode-Lacks (a ∷ b ∷ []) = (char_of-ne _, (char_of-ne _, (char_of-ne _, (omega arith, tt))))
encode-Lacks (a ∷ b ∷ c ∷ s) =
    (char_of-ne _, (char_of-ne _, (char_of-ne _, (char_of-ne _, encode-Lacks s))))

fields_of-colon :
    (kid sig : Str)
    → Lacks b':' kid
    → Lacks b':' sig
    → fields_of (kid ++ codes ":" ++ sig) ≡ ok (kid, sig)
unfolding fields_of
fields_of-colon kid sig hk hs =
    rw
      (
        append_assoc kid (codes ":") sig,
        fields_of,
        split-append b':' kid sig hk,
        split-Lacks b':' sig hs,
      )
      refl

parse_id-public_key_from_id :
    (id : Str) (k : EdX25519.PublicKey)
    → EdX25519.public_key_from_id id ≡ ok k
    → parse_id id ≡ ok id
unfolding EdX25519.public_key_from_id parse_id str_eq
parse_id-public_key_from_id [] k h = ground arith
parse_id-public_key_from_id (c ∷ s) k h = elim (Result-cases (Bech32.decode (c ∷ s))) [
  | inl (r, e) ↦ rw (parse_id, e) refl
  | inr (x, e) ↦ ground (arith, e)
]

signed_text-ne : (method url content_hash : Str) → signed_text method url content_hash ≢ []
unfolding signed_text
signed_text-ne [] url content_hash e = cc
signed_text-ne (c ∷ method) url content_hash e = cc

some-ne : {A : Type 0} (a : A) → some a ≢ none
some-ne a e = cc

itoa-ne : (n : ℕ) → n ≤ max_int → itoa (pos n) ≢ []
unfolding parse_int
itoa-ne n fits e = some-ne (pos n) (sym (parse_int-itoa n fits) ∙ ap parse_int e)

module _ (c : Crypto) (urls : Urls) (x : Base62) (decode64 : Str → Option Str)
    (url_laws : IsUrls urls) where
  -- The query of the URL that is made.
  auth_url_query :
      (urs nonce : Str) (tm : Time) (ur : Url)
      → auth_url_for c urls x urs tm nonce ≡ ok ur
      → (16 ≤ length nonce)
        × (ur.query (codes "nonce") ≡ x.encode nonce)
        × (ur.query (codes "ts") ≡ itoa (millis_of tm))
  unfolding auth_url_for Assoc.lookup Assoc.insert_all Assoc.insert str_eq
  auth_url_query urs nonce tm ur h = elim (Option-cases (urls.parse urs)) [
    | inl f ↦ ground (arith, f)
    | inr (u, f) ↦
        let kvs : Assoc Str =
          (codes "nonce", x.encode nonce) ∷ (codes "ts", itoa (millis_of tm)) ∷ [] in
        let same : urls.set_query u kvs ≡ ur = ground (arith, f) in
        (
          ground (arith, f),
          ap (λ v. v.query (codes "nonce")) (sym same)
              ∙ url_laws.query-set_query u kvs (codes "nonce"),
          ap (λ v. v.query (codes "ts")) (sym same) ∙ url_laws.query-set_query u kvs (codes "ts"),
        )
  ]

  nonce_of_lem :
      (url : Url) (nonce : Str)
      → url.query (codes "nonce") ≡ x.encode nonce
      → 16 ≤ length nonce
      → x.encode nonce ≢ []
      → x.decode (x.encode nonce) ≡ some nonce
      → nonce_of c urls x decode64 url ≡ ok (x.encode nonce)
  unfolding nonce_of
  nonce_of_lem url nonce u long given back =
      rw (nonce_of, u, str_eq_ne (x.encode nonce) [] given, back) (ground arith)

  timestamp_of_lem :
      (url : Url) (tm now : Time) (n : ℕ)
      → url.query (codes "ts") ≡ itoa (millis_of tm)
      → millis_of tm ≡ pos n
      → n ≤ max_int
      → is_too_far now (parse_millis (pos n)) ≡ false
      → timestamp_of c urls x decode64 url now ≡ ok (parse_millis (pos n))
  unfolding timestamp_of
  timestamp_of_lem url tm now n u is fits near =
      rw
        (
          timestamp_of,
          u,
          is,
          str_eq_ne (itoa (pos n)) [] (itoa-ne n fits),
          parse_int-itoa n fits,
          near,
        )
        refl

  module _ (laws : IsCrypto c) (seed : Str) (sk : EdX25519.Key) (k : IsKeyOf seed sk)
      (bytes : All (λ y. y < 256) (drop 32 seed)) (plain : Lacks b':' sk.public.id) where
    check_signature_lem :
        (method : Str) (url : Url) (content_hash : Str)
        → let a = new_auth_with_url c method url content_hash sk in
          let text = signed_text method url.text content_hash in
          decode64 a.sig ≡ some (EdX25519.sign_detached c sk text)
          → check_signature c urls x decode64 sk.public.id (header a) text ≡ ok sk.public.id
    unfolding check_signature header new_auth_with_url
    check_signature_lem method url content_hash back =
        let text = signed_text method url.text content_hash in
        let key = public_key_from_id_lem seed sk k bytes in
        rw
          (
            check_signature,
            fields_of-colon sk.public.id (Base64.encode (EdX25519.sign_detached c sk text)) plain
                (encode-Lacks (EdX25519.sign_detached c sk text)),
            parse_id-public_key_from_id sk.public.id sk.public key,
            str_eq_self sk.public.id,
            key,
            back,
            verify_detached-sign_detached c laws seed sk k text
                (signed_text-ne method url.text content_hash),
          )
          (ground arith)

    -- What `newAuth` makes.
    new_auth-eq-ok :
        (method urs content_hash nonce : Str) (tm : Time) (a : Auth)
        → new_auth c urls x method urs content_hash tm nonce sk ≡ ok a
        → (auth_url_for c urls x urs tm nonce ≡ ok a.auth_url)
          × (a ≡ new_auth_with_url c method a.auth_url content_hash sk)
    unfolding new_auth auth_url_for new_auth_with_url
    new_auth-eq-ok method urs content_hash nonce tm a h =
        elim (Result-cases (auth_url_for c urls x urs tm nonce)) [
          | inr (e, f) ↦ ground (arith, f)
          | inl (ur, f) ↦
              (let made : new_auth_with_url c method ur content_hash sk ≡ a = ground (arith, f) in
                let same : ur ≡ a.auth_url = ap (λ t. t.auth_url) made in
                (
                  f ∙ ap ok same,
                  sym made ∙ ap (λ u. new_auth_with_url c method u content_hash sk) same,
                ))
        ]

    -- A request with the URL, the method, the content hash and the header of what `newAuth` made
    -- passes all the checks of `Authorize` before that of the nonce, and gives the nonce and the
    -- time, up to milliseconds, that `newAuth` was given. The URL that was made is parsed to
    -- itself, and the query of a URL has what was set in it, as net/url documents; Base62 and
    -- Base64 are read back, signing does what its package documents, the key is made of its private
    -- key, has an identifier without a colon, and the time, not before 1970, is near.
    pub check_request-new_auth :
        {S : Type 0} (r : AuthRequest S) (urs nonce : Str) (tm : Time) (n : ℕ) (a : Auth)
        → new_auth c urls x r.method urs r.content_hash tm nonce sk ≡ ok a
        → r.url ≡ a.auth_url.text
        → r.kid ≡ sk.public.id
        → r.auth ≡ header a
        → urls.parse a.auth_url.text ≡ some a.auth_url
        → x.encode nonce ≢ []
        → x.decode (x.encode nonce) ≡ some nonce
        → decode64 a.sig
          ≡ some (EdX25519.sign_detached c sk (signed_text r.method a.auth_url.text r.content_hash))
        → millis_of tm ≡ pos n
        → n ≤ max_int
        → is_too_far r.now (parse_millis (pos n)) ≡ false
        → check_request c urls x decode64 r
          ≡ ok (record {
            result_kid = sk.public.id;
            result_url = a.auth_url;
            nonce = x.encode nonce;
            timestamp = parse_millis (pos n);
          })
    unfolding check_request
    check_request-new_auth r urs nonce tm n a h url kid auth parsed given back64 back is fits near =
        let (located, made) = new_auth-eq-ok r.method urs r.content_hash nonce tm a h in
        let (long, with_nonce, with_time) = auth_url_query urs nonce tm a.auth_url located in
        let found : urls.parse r.url ≡ some a.auth_url = ap urls.parse url ∙ parsed in
        let own : str_eq a.auth_url.text r.url ≡ true =
          ap (str_eq a.auth_url.text) url ∙ str_eq_self a.auth_url.text in
        let signed : check_signature c urls x decode64 r.kid r.auth
              (signed_text r.method a.auth_url.text r.content_hash)
            ≡ ok sk.public.id =
          ap₂
            (λ id field.
              check_signature c urls x decode64 id field
                (signed_text r.method a.auth_url.text r.content_hash))
            kid auth
          ∙ ap
              (λ t.
                check_signature c urls x decode64 sk.public.id (header t)
                  (signed_text r.method a.auth_url.text r.content_hash))
              made
          ∙ check_signature_lem r.method a.auth_url r.content_hash
              (ap (λ t. decode64 t.sig) (sym made) ∙ back) in
        rw
          (
            check_request,
            found,
            own,
            nonce_of_lem a.auth_url nonce with_nonce long given back64,
            timestamp_of_lem a.auth_url tm r.now n with_time is fits near,
            signed,
          )
          refl
