-- ===== src/Http/Auth/Accepted.antt =====
-- http/auth.go: what a request that is authorized has, and that its nonce is used up.
use keys.Common.{
  [], ◌∷◌, Option, some, false, not, ◌&&◌, Str, str_eq, str_eq_iff, ok, Result-cases, Option-cases,
  Bool-cases, ◌≡◌, inl, inr, sym, ap, arith, ◌∙◌,
}
use keys.Crypto.{Crypto}
use keys.EdX25519
use keys.EdX25519.{PublicKey}
use keys.Encoding.Saltpack.{Base62}
use keys.Id.{parse_id}
use keys.Http.Auth.{
  Urls, AuthRequest, AuthResult, NonceCheck, signed_text, fields_of, nonce_of, timestamp_of,
  check_signature, check_request, authorize,
}

-- A signature of a key over a text, by the fields of a header.
pub record IsSigned (c : Crypto) (decode64 : Str → Option Str) (kid auth text akid : Str)
    : Type 0 where
  pub key : PublicKey
  pub signature : Str
  pub field : Str
  pub fields : fields_of auth ≡ ok (akid, field)
  pub identified : EdX25519.public_key_from_id akid ≡ ok key
  pub decoded : decode64 field ≡ some signature
  pub verified : EdX25519.verify_detached c key signature text ≡ ok tt
  pub expected : (not (str_eq kid []) && not (str_eq akid kid)) ≡ false

module _ (c : Crypto) (urls : Urls) (x : Base62) (decode64 : Str → Option Str) where
  parse_id_lem : (s id : Str) → parse_id s ≡ ok id → s ≡ id
  unfolding parse_id
  parse_id_lem [] id h = ground arith
  parse_id_lem (y ∷ s) id h = ground arith

  check_signature-IsSigned :
      (kid auth text akid : Str)
      → check_signature c urls x decode64 kid auth text ≡ ok akid
      → IsSigned c decode64 kid auth text akid
  unfolding check_signature
  check_signature-IsSigned kid auth text akid h = elim (Result-cases (fields_of auth)) [
    | inr (e, f) ↦ ground (arith, f)
    | inl ((hkid, hsig), f) ↦ elim (Result-cases (parse_id hkid)) [
      | inr (e, g) ↦ ground (arith, f, g)
      | inl (id, g) ↦ elim (Bool-cases (not (str_eq kid []) && not (str_eq id kid))) [
        | inl i ↦ ground (arith, f, g, i)
        | inr i ↦ elim (Result-cases (EdX25519.public_key_from_id id)) [
          | inr (e, k) ↦ ground (arith, f, g, i, k)
          | inl (spk, k) ↦ elim (Option-cases (decode64 hsig)) [
            | inl l ↦ ground (arith, f, g, i, k, l)
            | inr (b, l) ↦ elim (Result-cases (EdX25519.verify_detached c spk b text)) [
              | inr (e, v) ↦ ground (arith, f, g, i, k, l, v)
              | inl (_, v) ↦
                  (let same : id ≡ akid = ground (arith, f, g, i, k, l, v) in
                    rw (← same) (record {
                      key = spk;
                      signature = b;
                      field = hsig;
                      fields = f ∙ ap (λ s. ok (s, hsig)) (parse_id_lem hkid id g);
                      identified = k;
                      decoded = l;
                      verified = v;
                      expected = i;
                    }))
            ]
          ]
        ]
      ]
    ]
  ]

  -- What a request has whose checks, but for that of the nonce, have passed.
  pub record IsChecked {S : Type 0} (r : AuthRequest S) (result : AuthResult) : Type 0 where
    pub parsed : urls.parse r.url ≡ some result.result_url
    pub own_text : result.result_url.text ≡ r.url
    pub with_nonce : nonce_of c urls x decode64 result.result_url ≡ ok result.nonce
    pub in_time : timestamp_of c urls x decode64 result.result_url r.now ≡ ok result.timestamp
    pub signed :
        IsSigned c decode64 r.kid r.auth
          (signed_text r.method r.url r.content_hash)
          result.result_kid

  check_request-IsChecked :
      {S : Type 0} (r : AuthRequest S) (result : AuthResult)
      → check_request c urls x decode64 r ≡ ok result
      → IsChecked r result
  unfolding check_request
  check_request-IsChecked r result h = elim (Option-cases (urls.parse r.url)) [
    | inl f ↦ ground (arith, f)
    | inr (url, f) ↦ elim (Bool-cases (str_eq url.text r.url)) [
      | inr g ↦ ground (arith, f, g)
      | inl g ↦ elim (Result-cases (nonce_of c urls x decode64 url)) [
        | inr (e, i) ↦ ground (arith, f, g, i)
        | inl (nonce, i) ↦ elim (Result-cases (timestamp_of c urls x decode64 url r.now)) [
          | inr (e, k) ↦ ground (arith, f, g, i, k)
          | inl (tm, k) ↦
              elim (Result-cases (
                check_signature c urls x decode64 r.kid r.auth
                  (signed_text r.method url.text r.content_hash))) [
                    | inr (e, l) ↦ ground (arith, f, g, i, k, l)
                    | inl (akid, l) ↦
                        (let same : record {
                          result_kid = akid;
                          result_url = url;
                          nonce = nonce;
                          timestamp = tm;
                        }
                              ≡ result =
                            ground (arith, f, g, i, k, l) in
                          let text = (str_eq_iff url.text r.url).0 g in
                          rw (← same) (record {
                            parsed = f;
                            own_text = text;
                            with_nonce = i;
                            in_time = k;
                            signed = rw text at (
                                check_signature-IsSigned r.kid r.auth
                                  (signed_text r.method url.text r.content_hash) akid l);
                          }))
                  ]
        ]
      ]
    ]
  ]

  -- A request that is authorized has passed all checks, the nonce check last.
  pub record IsAuthorized {S : Type 0} (s : S) (r : AuthRequest S) (result : AuthResult)
      : Type 0 where
    pub request : IsChecked r result
    pub check : NonceCheck S
    pub checks_nonce : r.nonce_check ≡ some check
    pub fresh : (check s result.nonce).0 ≡ ok tt
    pub leaves : (authorize c urls x decode64 s r).1 ≡ (check s result.nonce).1

  -- Where `Authorize` accepts a request, the URL is parsed to one with the text that the request
  -- has; the nonce and the time of its query pass their tests; the header names a key, the expected
  -- one if there is one, whose signature of method, URL and content hash verifies; and the nonce
  -- check, which there is, passes for that nonce, and leaves the store of the nonces as `Authorize`
  -- leaves it.
  pub authorize-IsAuthorized :
      {S : Type 0} (s : S) (r : AuthRequest S) (result : AuthResult)
      → (authorize c urls x decode64 s r).0 ≡ ok result
      → IsAuthorized s r result
  unfolding authorize
  authorize-IsAuthorized s r result h = elim (Result-cases (check_request c urls x decode64 r)) [
    | inr (e, f) ↦ ground (arith, f)
    | inl (found, f) ↦ elim (Option-cases r.nonce_check) [
      | inl g ↦ ground (arith, f, g)
      | inr (check, g) ↦ elim (Result-cases (check s found.nonce).0) [
        | inr (e, i) ↦ ground (arith, f, g, i)
        | inl (_, i) ↦
            (let same : found ≡ result = ground (arith, f, g, i) in
              record {
                request = check_request-IsChecked r result (f ∙ ap ok same);
                check = check;
                checks_nonce = g;
                fresh = ap (λ t. (check s t.nonce).0) (sym same) ∙ i;
                leaves = rw (authorize, f, g, i) (ap (λ t. (check s t.nonce).1) same);
              })
      ]
    ]
  ]
