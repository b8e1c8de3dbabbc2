-- ===== src/Encoding/Is.antt =====
-- encoding/is.go: tests on the characters of a text.
use keys.Common.{ℕ, [], ◌∷◌, Bool, true, false, ◌&&◌, ◌||◌, Str, leb, if◌then◌else◌, ◌==◌}

-- A letter, a digit, or an extra character.
unfoldable pub is_alpha_numeric_char : Str → ℕ → Bool
is_alpha_numeric_char [] c =
    leb b'a' c && leb c b'z' || leb b'A' c && leb c b'Z' || leb b'0' c && leb c b'9'
is_alpha_numeric_char (e ∷ extra) c = e == c || is_alpha_numeric_char extra c

unfoldable pub all_alpha_numeric : Str → Str → Bool
all_alpha_numeric extra [] = true
all_alpha_numeric extra (c ∷ s) = is_alpha_numeric_char extra c && all_alpha_numeric extra s

-- `IsAlphaNumeric(s, extra)`, where the extra characters stand for themselves in the expression.
unfoldable pub is_alpha_numeric : Str → Str → Bool
is_alpha_numeric [] extra = false
is_alpha_numeric (c ∷ s) extra = all_alpha_numeric extra (c ∷ s)

-- `IsASCII(b)`.
unfoldable pub is_ascii : Str → Bool
is_ascii [] = true
is_ascii (c ∷ s) = let rest = is_ascii s in if leb 128 c then false else rest

-- `HasUpper(s)`.
unfoldable pub has_upper : Str → Bool
has_upper [] = false
has_upper (c ∷ s) = let rest = has_upper s in if leb b'A' c && leb c b'Z' then true else rest
