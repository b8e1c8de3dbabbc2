-- ===== src/User/Validate/Url/Owner.antt =====
-- user/validate: an address that a service takes for a user is one of the service, and names the
-- user.
use keys.Common.{
  ℕ, List, [], ◌∷◌, ◌++◌, none, some, true, Str, str_eq, str_eq_iff, codes, get_elem?, ok, ◌≡◌, ◌≢◌,
  ◌⊎◌, inl, inr, refl, arith, ap, ◌∙◌, Option-cases, Result-cases, Bool-cases,
}
use keys.User.Validate.{Service, twitter, github, reddit, https, echo, https_validate_name}
use keys.User.Validate.Url.{
  Address, Urls, parts_of, has_part, is_twitter_host, is_reddit_host, is_message, prune, parse_url,
  github_api_url, name_status_for_url, twitter_api_url, reddit_api_url, echo_validate_url,
  https_validate_url, validate_url,
}

-- The address is one of the service, and the part of its path that names a user names this one.
abbrev pub Names : Service → Str → Address → Type 0
Names twitter name u =
    (u.scheme ≡ codes "https")
    × (is_twitter_host u.host ≡ true)
    × (get_elem? (parts_of u) 0 ≡ some name)
Names github name u =
    (u.scheme ≡ codes "https")
    × (u.host ≡ codes "gist.github.com")
    × (get_elem? (parts_of u) 0 ≡ some name)
Names reddit name u =
    (u.scheme ≡ codes "https")
    × (is_reddit_host u.host ≡ true)
    × (get_elem? (parts_of u) 4 ≡ some (prune name))
Names https name u = Unit
Names echo name u =
    (u.scheme ≡ codes "test") × (u.host ≡ codes "echo") × (get_elem? (parts_of u) 0 ≡ some name)

-- The part is there.
get_elem?-has_part :
    (parts : List Str) (i : ℕ) (s : Str) → has_part parts i s ≡ true → get_elem? parts i ≡ some s
unfolding has_part
get_elem?-has_part parts i s h = elim (Option-cases (get_elem? parts i)) [
  | inl e ↦ ground (arith, e)
  | inr (p, e) ↦ e ∙ ap some ((str_eq_iff p s).0 (ground (arith, e)))
]

module _ (urls : Urls) where
  Names-github :
      (name urs api : Str) (u : Address)
      → urls.parse urs ≡ some u
      → github_api_url urls name urs ≡ ok api
      → Names github name u
  unfolding github_api_url parse_url
  Names-github name urs api u parsed h = (
    ground (arith, parsed, str_eq_iff u.scheme (codes "https")),
    ground (arith, parsed, str_eq_iff u.host (codes "gist.github.com")),
    of_parts (parts_of u) refl,
  )
    where
      of_parts : (ps : List Str) → parts_of u ≡ ps → get_elem? (parts_of u) 0 ≡ some name
      of_parts [] e = ground (arith, parsed, e)
      of_parts (p ∷ []) e = ground (arith, parsed, e)
      of_parts (p ∷ q ∷ qs) e =
          ap (λ l. get_elem? l 0) e ∙ ap some ((str_eq_iff p name).0 (ground (arith, parsed, e)))

  Names-twitter :
      (name urs api : Str) (u : Address)
      → urls.parse urs ≡ some u
      → twitter_api_url urls name urs ≡ ok api
      → Names twitter name u
  unfolding twitter_api_url name_status_for_url parse_url
  Names-twitter name urs api u parsed h = (
    ground (arith, parsed, str_eq_iff u.scheme (codes "https")),
    ground (arith, parsed),
    of_parts (Option-cases (get_elem? (parts_of u) 0)) (Option-cases (get_elem? (parts_of u) 2)),
  )
    where
      of_parts :
          ((get_elem? (parts_of u) 0 ≡ none) ⊎ ((p : Str) × (get_elem? (parts_of u) 0 ≡ some p)))
          → ((get_elem? (parts_of u) 2 ≡ none) ⊎ ((p : Str) × (get_elem? (parts_of u) 2 ≡ some p)))
          → get_elem? (parts_of u) 0 ≡ some name
      of_parts (inl e) f = ground (arith, parsed, e)
      of_parts (inr (p, e)) (inl f) = ground (arith, parsed, e, f)
      of_parts (inr (p, e)) (inr (q, f)) =
          e ∙ ap some ((str_eq_iff p name).0 (ground (arith, parsed, e, f)))

  Names-reddit :
      (name urs api : Str) (u : Address)
      → urls.parse urs ≡ some u
      → reddit_api_url urls name urs ≡ ok api
      → Names reddit name u
  unfolding reddit_api_url parse_url is_message
  Names-reddit name urs api u parsed h = (
    ground (arith, parsed, str_eq_iff u.scheme (codes "https")),
    ground (arith, parsed),
    get_elem?-has_part (parts_of u) 4 (prune name) (ground (arith, parsed)),
  )

  Names-echo :
      (name urs : Str) (u : Address)
      → urls.parse urs ≡ some u
      → echo_validate_url urls name urs ≡ ok tt
      → Names echo name u
  unfolding echo_validate_url parse_url
  Names-echo name urs u parsed h = (
    ground (arith, parsed, str_eq_iff u.scheme (codes "test")),
    ground (arith, parsed, str_eq_iff u.host (codes "echo")),
    get_elem?-has_part (parts_of u) 0 name (ground (arith, parsed)),
  )

  -- What the two addresses of a web site are, and of the others what `Names` says.
  abbrev pub IsOwned : Service → Str → Str → Type 0
  IsOwned https name urs =
      (https_validate_name name ≡ ok tt)
      × ((urs ≡ codes "https://" ++ name ++ codes "/keyspub.txt")
          ⊎ (urs ≡ codes "https://" ++ name ++ codes "/.well-known/keyspub.txt"))
  IsOwned twitter name urs = (u : Address) × (urls.parse urs ≡ some u) × Names twitter name u
  IsOwned github name urs = (u : Address) × (urls.parse urs ≡ some u) × Names github name u
  IsOwned reddit name urs = (u : Address) × (urls.parse urs ≡ some u) × Names reddit name u
  IsOwned echo name urs = (u : Address) × (urls.parse urs ≡ some u) × Names echo name u

  IsOwned-https :
      (name urs : Str) → https_validate_url urls name urs ≡ ok tt → IsOwned https name urs
  unfolding https_validate_url
  IsOwned-https name urs h =
      elim (Bool-cases (str_eq urs (codes "https://" ++ name ++ codes "/keyspub.txt"))) [
        | inl first ↦ (ground arith, inl ((str_eq_iff urs _).0 first))
        | inr other ↦ (ground arith, inr ((str_eq_iff urs _).0 (ground (arith, other))))
      ]

  -- An address that is not parsed is not taken.
  validate_url-unparsed :
      (service : Service) (name urs : Str)
      → urls.parse urs ≡ none
      → service ≢ https
      → validate_url urls service name urs ≢ ok tt
  unfolding validate_url github_api_url twitter_api_url name_status_for_url reddit_api_url
      echo_validate_url parse_url
  validate_url-unparsed github name urs e k h = ground (arith, e)
  validate_url-unparsed twitter name urs e k h = ground (arith, e)
  validate_url-unparsed reddit name urs e k h = ground (arith, e)
  validate_url-unparsed https name urs e k h = k refl
  validate_url-unparsed echo name urs e k h = ground (arith, e)

  -- An address that `ValidateURL` takes for a name is, for the service https, one of the two
  -- addresses of keyspub.txt at a valid name, and, for each other service, parsed to the scheme and
  -- a host of the service and to a path whose part for the name is that name, without its dashes
  -- for reddit.
  pub IsOwned-validate_url :
      (service : Service) (name urs : Str)
      → validate_url urls service name urs ≡ ok tt
      → IsOwned service name urs
  unfolding validate_url
  IsOwned-validate_url github name urs h = elim (Option-cases (urls.parse urs)) [
    | inl e ↦ absurd (validate_url-unparsed github name urs e (λ k. cc) h)
    | inr (u, p) ↦ elim (Result-cases (github_api_url urls name urs)) [
      | inr (x, e) ↦ ground (arith, e)
      | inl (api, e) ↦ (u, p, Names-github name urs api u p e)
    ]
  ]
  IsOwned-validate_url twitter name urs h = elim (Option-cases (urls.parse urs)) [
    | inl e ↦ absurd (validate_url-unparsed twitter name urs e (λ k. cc) h)
    | inr (u, p) ↦ elim (Result-cases (twitter_api_url urls name urs)) [
      | inr (x, e) ↦ ground (arith, e)
      | inl (api, e) ↦ (u, p, Names-twitter name urs api u p e)
    ]
  ]
  IsOwned-validate_url reddit name urs h = elim (Option-cases (urls.parse urs)) [
    | inl e ↦ absurd (validate_url-unparsed reddit name urs e (λ k. cc) h)
    | inr (u, p) ↦ elim (Result-cases (reddit_api_url urls name urs)) [
      | inr (x, e) ↦ ground (arith, e)
      | inl (api, e) ↦ (u, p, Names-reddit name urs api u p e)
    ]
  ]
  IsOwned-validate_url https name urs h = IsOwned-https name urs h
  IsOwned-validate_url echo name urs h = elim (Option-cases (urls.parse urs)) [
    | inl e ↦ absurd (validate_url-unparsed echo name urs e (λ k. cc) h)
    | inr (u, p) ↦ (u, p, Names-echo name urs u p h)
  ]
