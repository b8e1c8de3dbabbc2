-- ===== src/Encoding/Words.antt =====
-- encoding/parse.go and encoding/saltpack.go: a text broken into words and lines, and the
-- characters that are read back from it. The characters to allow are ASCII, so that the text is one
-- of bytes.
use keys.Common.{
  ℕ, zero, suc, ◌≤◌, ◌%◌, List, [], ◌∷◌, ◌++◌, Option, none, some, Bool, false, ◌&&◌, ◌||◌, not,
  ◌==◌, leb, Str, length, length-drop, take, drop, if◌then◌else◌, ◌≡◌, refl, arith, ap, ◌∙◌, sym,
  append-nil, append_assoc, Bool-cases, inl, inr,
}
use keys.Common.Split.{join}

-- 0-9, A-Z and a-z.
unfoldable pub is_base62 : ℕ → Bool
is_base62 r =
    (leb 0x30 r && leb r 0x39) || ((leb 0x41 r && leb r 0x5A) || (leb 0x61 r && leb r 0x7A))

unfoldable pub is_allowed : ℕ → Str → Bool
is_allowed r [] = false
is_allowed r (a ∷ allow) = r == a || is_allowed r allow

-- `TrimSaltpack(msg, allow)`.
unfoldable pub trim_saltpack : Str → Str → Str
trim_saltpack [] allow = []
trim_saltpack (r ∷ msg) allow =
    let rest = trim_saltpack msg allow in
    if is_base62 r || is_allowed r allow then r ∷ rest else rest

-- The loop of `BreakString` over what is left of the text, for at most `fuel` rounds, and what
-- follows it. `none` is a division by zero, or means that the rounds ran out.
unfoldable pub break_from : ℕ → Str → ℕ → ℕ → List Str → List Str → Option Str
break_from fuel [] word_len line_len words lines = some (join (lines ++ join words b' ' ∷ []) b'\n')
break_from zero (c ∷ msg) word_len line_len words lines = none
break_from (suc fuel) (c ∷ msg) word_len line_len words lines =
    let word = take word_len (c ∷ msg) in
    let left = drop word_len (c ∷ msg) in
    let new_line =
      break_from fuel left word_len line_len (word ∷ []) (lines ++ join words b' ' ∷ []) in
    let same_line = break_from fuel left word_len line_len (words ++ word ∷ []) lines in
    if length words == 0
    then same_line
    else if line_len == 0
    then none
    else if length words % line_len == 0
    then new_line
    else same_line

-- `BreakString(msg, wordLen, lineLen)`.
unfoldable pub break_string : Str → ℕ → ℕ → Option Str
break_string msg word_len line_len = break_from (length msg) msg word_len line_len [] []

pub trim_saltpack-append :
    (s t allow : Str)
    → trim_saltpack (s ++ t) allow ≡ trim_saltpack s allow ++ trim_saltpack t allow
unfolding trim_saltpack
trim_saltpack-append [] t allow = refl
trim_saltpack-append (r ∷ s) t allow = ground (arith, trim_saltpack-append s t allow)

-- What is read of the parts of a join, whose separator is not read.
trim_all : List Str → Str
trim_all [] = []
trim_all (p ∷ ps) = trim_saltpack p [] ++ trim_all ps

trim_saltpack-join :
    (ps : List Str) (sep : ℕ) → is_base62 sep ≡ false → trim_saltpack (join ps sep) [] ≡ trim_all ps
unfolding join trim_all trim_saltpack is_allowed
trim_saltpack-join [] sep h = refl
trim_saltpack-join (p ∷ []) sep h = sym (append-nil _)
trim_saltpack-join (p ∷ q ∷ qs) sep h =
    trim_saltpack-append p (sep ∷ join (q ∷ qs) sep) []
    ∙ ap (◌++◌ (trim_saltpack p [])) (ground (arith, h) ∙ trim_saltpack-join (q ∷ qs) sep h)

trim_all-append : (ps qs : List Str) → trim_all (ps ++ qs) ≡ trim_all ps ++ trim_all qs
unfolding trim_all
trim_all-append [] qs = refl
trim_all-append (p ∷ ps) qs =
    ap (◌++◌ (trim_saltpack p [])) (trim_all-append ps qs)
    ∙ sym (append_assoc (trim_saltpack p []) (trim_all ps) (trim_all qs))

take-drop : (n : ℕ) (s : Str) → take n s ++ drop n s ≡ s
take-drop zero s = refl
take-drop (suc n) [] = refl
take-drop (suc n) (c ∷ s) = ap (◌∷◌ c) (take-drop n s)

trim-take-drop :
    (n : ℕ) (s : Str)
    → trim_saltpack (take n s) [] ++ trim_saltpack (drop n s) [] ≡ trim_saltpack s []
trim-take-drop n s =
    sym (trim_saltpack-append (take n s) (drop n s) [])
    ∙ ap (λ t. trim_saltpack t []) (take-drop n s)

-- A word moved from the text to the words, and the words moved to the lines.
same_line_lem :
    (n : ℕ) (s : Str) (words lines : List Str)
    → (trim_all lines ++ trim_all (words ++ take n s ∷ [])) ++ trim_saltpack (drop n s) []
      ≡ (trim_all lines ++ trim_all words) ++ trim_saltpack s []
unfolding trim_all
same_line_lem n s words lines =
    simp (trim_all-append words (take n s ∷ []), append-nil, append_assoc, trim-take-drop n s)

new_line_lem :
    (n : ℕ) (s : Str) (words lines : List Str)
    → (trim_all (lines ++ join words b' ' ∷ []) ++ trim_all (take n s ∷ []))
        ++ trim_saltpack (drop n s) []
      ≡ (trim_all lines ++ trim_all words) ++ trim_saltpack s []
unfolding trim_all is_base62
new_line_lem n s words lines = simp (
  trim_all-append lines (join words b' ' ∷ []),
  trim_saltpack-join words b' ' refl,
  append-nil,
  append_assoc,
  trim-take-drop n s,
)

break_from_lem :
    (fuel : ℕ) (msg : Str) (word_len line_len : ℕ) (words lines : List Str)
    → length msg ≤ fuel
    → 1 ≤ word_len
    → 1 ≤ line_len
    → (out : Str) × (break_from fuel msg word_len line_len words lines ≡ some out)
      × (trim_saltpack out [] ≡ (trim_all lines ++ trim_all words) ++ trim_saltpack msg [])
unfolding break_from trim_all is_base62 trim_saltpack
break_from_lem fuel [] w l words lines fits pw pl = (
  _,
  refl,
  trim_saltpack-join (lines ++ join words b' ' ∷ []) b'\n' refl
      ∙ simp (
        trim_all-append lines (join words b' ' ∷ []),
        trim_saltpack-join words b' ' refl,
        append-nil,
      ),
)
break_from_lem zero (c ∷ msg) w l words lines fits pw pl = absurd (omega arith)
break_from_lem (suc fuel) (c ∷ msg) w l words lines fits pw pl =
    let shorter : length (drop w (c ∷ msg)) ≤ fuel = omega (arith, length-drop w (c ∷ msg)) in
    let (same, e, t) =
      break_from_lem fuel (drop w (c ∷ msg)) w l (words ++ take w (c ∷ msg) ∷ []) lines shorter pw
        pl in
    let (new, f, u) =
      break_from_lem fuel (drop w (c ∷ msg)) w l (take w (c ∷ msg) ∷ [])
        (lines ++ join words b' ' ∷ []) shorter pw pl in
    elim (Bool-cases (length words == 0 || not (length words % l == 0))) [
      | inl stay ↦ (same, ground (arith, e, stay), t ∙ same_line_lem w (c ∷ msg) words lines)
      | inr next ↦ (new, ground (arith, f, next), u ∙ new_line_lem w (c ∷ msg) words lines)
    ]

-- `BreakString` with words and lines of at least one returns, and the characters of base62 that
-- `TrimSaltpack` reads from its text are those of the original text.
pub trim_saltpack-break_string :
    (msg : Str) (word_len line_len : ℕ)
    → 1 ≤ word_len
    → 1 ≤ line_len
    → (out : Str) × (break_string msg word_len line_len ≡ some out)
      × (trim_saltpack out [] ≡ trim_saltpack msg [])
unfolding break_string trim_all
trim_saltpack-break_string msg w l pw pl =
    break_from_lem (length msg) msg w l [] [] (omega arith) pw pl
