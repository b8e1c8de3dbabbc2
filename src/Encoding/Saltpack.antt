-- ===== src/Encoding/Saltpack.antt =====
-- encoding/saltpack.go and encoding/parse.go: messages in the armor of Saltpack. Base62 and the
-- unescaping of HTML are parameters. Texts are ASCII.
use keys.Common.{
  ℕ, [], ◌∷◌, ◌++◌, Option, none, some, Bool, true, false, ◌&&◌, ◌||◌, not, ◌==◌, Str, str_eq,
  codes, length, drop, has_prefix, if◌then◌else◌, Result, ok, err, ◌≡◌, refl, All, arith, ap, ◌∙◌,
  append-nil,
}
use keys.Encoding.Words.{
  is_base62, is_allowed, trim_saltpack, break_string, trim_saltpack-append,
  trim_saltpack-break_string,
}

-- `basex.Base62StdEncodingStrict`: its texts, and what they are read as.
pub record Base62 : Type 0 where
  pub encode : Str → Str
  pub decode : Str → Option Str

-- What the package documents: a text of its alphabet, which is read back.
pub record IsBase62 (x : Base62) : Type 0 where
  pub all_base62 : (b : Str) → All (λ c. is_base62 c ≡ true) (x.encode b)
  pub decode-encode_base62 : (b : Str) → x.decode (x.encode b) ≡ some b

pub data Error : Type 0 where
  failed_to_decode : Error

-- The group `(.*)` before the last `pattern` behind which the rest of the expression matches.
unfoldable pub capture : {A : Type 0} → Str → (Str → Option A) → Str → Option (Str × A)
capture pattern rest [] = none
capture pattern rest (c ∷ s) = elim (capture pattern rest s) [
  | some (group, a) ↦ some (c ∷ group, a)
  | none ↦
      if has_prefix (c ∷ s) pattern
      then elim (rest (drop (length pattern) (c ∷ s))) [ none ↦ none | some a ↦ some ([], a) ]
      else none
]

-- The expression of `FindSaltpack`, and its two groups.
unfoldable pub match_saltpack : Str → Option (Str × Str)
match_saltpack msg =
    elim (capture (codes "BEGIN ")
      (capture (codes "MESSAGE.") (capture (codes "END ") (capture (codes "MESSAGE") some))) msg) [
        | none ↦ none
        | some r ↦ some (r.1.0, r.1.1.0)
      ]

-- `strings.ReplaceAll(out, "\\n", "")`.
unfoldable pub remove_escapes : Str → Str
remove_escapes [] = []
remove_escapes (c ∷ []) = c ∷ []
remove_escapes (c ∷ d ∷ s) = elim (c == 0x5C && d == b'n') [
  | true ↦ remove_escapes s
  | false ↦ c ∷ remove_escapes (d ∷ s)
]

-- `stripTags(body)`; the first argument says whether a tag is open.
unfoldable pub strip_tags : Bool → Str → Str
strip_tags in_tag [] = []
strip_tags true (c ∷ s) = if c == b'>' then strip_tags false s else strip_tags true s
strip_tags false (c ∷ []) = c ∷ []
strip_tags false (c ∷ d ∷ s) = elim (c == b'<' && not (d == b'>')) [
  | true ↦ strip_tags true (d ∷ s)
  | false ↦ c ∷ strip_tags false (d ∷ s)
]

-- `regexSpaces.ReplaceAllString(out, " ")`.
unfoldable pub squeeze_spaces : Str → Str
squeeze_spaces [] = []
squeeze_spaces (c ∷ []) = c ∷ []
squeeze_spaces (c ∷ d ∷ s) = elim (c == b' ' && d == b' ') [
  | true ↦ squeeze_spaces (d ∷ s)
  | false ↦ c ∷ squeeze_spaces (d ∷ s)
]

-- The white space of ASCII.
unfoldable pub is_space : ℕ → Bool
is_space c = c == b' ' || (c == 9 || (c == 10 || (c == 11 || (c == 12 || c == 13))))

unfoldable pub is_newline : ℕ → Bool
is_newline c = c == b'\n'

unfoldable pub trim_left : (ℕ → Bool) → Str → Str
trim_left test [] = []
trim_left test (c ∷ s) = if test c then trim_left test s else c ∷ s

unfoldable pub trim_right : (ℕ → Bool) → Str → Str
trim_right test [] = []
trim_right test (c ∷ s) = elim (trim_right test s) [
  | [] ↦ if test c then [] else c ∷ []
  | d ∷ t ↦ c ∷ d ∷ t
]

-- `strings.TrimSpace(s)`.
unfoldable pub trim_space : Str → Str
trim_space s = trim_right is_space (trim_left is_space s)

-- `FindSaltpack(msg, isHTML)`: the message, and its brand.
unfoldable pub find_saltpack : (Str → Str) → Str → Bool → Str × Str
find_saltpack unescape msg is_html =
    let found = match_saltpack (if is_html then unescape msg else msg) in
    let brand : Str = elim found [
      | none ↦ []
      | some (b, _) ↦ trim_space (trim_saltpack b (codes " "))
    ] in
    let out : Str = elim found [ none ↦ [] | some (_, o) ↦ remove_escapes o ] in
    let body = if is_html then strip_tags false out else out in
    let words = squeeze_spaces (trim_saltpack body (codes " \n.")) in
    (trim_right is_newline (trim_left is_newline (trim_space words)), brand)

unfoldable pub saltpack_start : Str → Str
saltpack_start brand =
    if str_eq brand [] then codes "BEGIN MESSAGE." else codes "BEGIN " ++ brand ++ codes " MESSAGE."

unfoldable pub saltpack_end : Str → Str
saltpack_end brand =
    if str_eq brand [] then codes "END MESSAGE." else codes "END " ++ brand ++ codes " MESSAGE."

module _ (x : Base62) where
  -- `encodeSaltpack(b)`; `none` is what `BreakString` has no text for.
  unfoldable pub encode_words : Str → Option Str
  encode_words b = break_string (x.encode b ++ codes ".") 15 4

  -- `decodeSaltpack(s)`.
  unfoldable pub decode_words : Str → Option Str
  decode_words s = x.decode (trim_saltpack s [])

  -- `EncodeSaltpack(b, brand)`.
  unfoldable pub encode_saltpack : Str → Str → Option Str
  encode_saltpack b brand = elim (encode_words b) [
    | none ↦ none
    | some s ↦ some (saltpack_start brand ++ codes "\n" ++ s ++ codes "\n" ++ saltpack_end brand)
  ]

  -- `DecodeSaltpack(msg, isHTML)`: a text without a message has no bytes, and is no error.
  unfoldable pub decode_saltpack : (Str → Str) → Str → Bool → Result Error (Str × Str)
  decode_saltpack unescape msg is_html =
      let (s, brand) = find_saltpack unescape msg is_html in
      if str_eq s [] then ok ([], []) else elim (x.decode (trim_saltpack s [])) [
        | none ↦ err failed_to_decode
        | some b ↦ ok (b, brand)
      ]

trim_saltpack-dot : trim_saltpack (codes ".") [] ≡ []
unfolding trim_saltpack is_base62 is_allowed
trim_saltpack-dot = refl

trim_saltpack_lem : (s : Str) → All (λ c. is_base62 c ≡ true) s → trim_saltpack s [] ≡ s
unfolding trim_saltpack
trim_saltpack_lem [] _ = refl
trim_saltpack_lem (c ∷ s) (h, hs) = ground (arith, h, trim_saltpack_lem s hs)

-- `encodeSaltpack` has a text for all bytes, and `decodeSaltpack` reads them back from it, if
-- Base62 is read back and has the characters of its alphabet.
pub decode_words-encode_words :
    (x : Base62) (b : Str)
    → IsBase62 x
    → (s : Str) × (encode_words x b ≡ some s) × (decode_words x s ≡ some b)
unfolding encode_words decode_words
decode_words-encode_words x b h =
    let (s, e, t) =
      trim_saltpack-break_string (x.encode b ++ codes ".") 15 4 (omega arith) (omega arith) in
    let read : trim_saltpack s [] ≡ x.encode b =
      t
      ∙ trim_saltpack-append (x.encode b) (codes ".") []
      ∙ ap (◌++◌ (trim_saltpack (x.encode b) [])) trim_saltpack-dot
      ∙ append-nil _
      ∙ trim_saltpack_lem (x.encode b) (h.all_base62 b) in
    (s, e, ap x.decode read ∙ h.decode-encode_base62 b)
