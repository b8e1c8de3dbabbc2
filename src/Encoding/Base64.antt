-- ===== src/Encoding/Base64.antt =====
-- encoding/encode.go: base64 with padding, of the standard library's `base64.StdEncoding`.
use keys.Common.{ℕ, ◌+◌, ◌*◌, ◌/◌, ◌%◌, [], ◌∷◌, none, some, Str, codes, get_elem?}

abbrev pub alphabet : Str
alphabet = codes "ABCDEFGHIJKLMNOPQRSTUVWXYZabcdefghijklmnopqrstuvwxyz0123456789+/"

-- The character of a digit of six bits.
unfoldable pub char_of : ℕ → ℕ
char_of d = elim (get_elem? alphabet d) [ none ↦ 0 | some c ↦ c ]

-- Three bytes are four digits; what is left at the end is filled up by `=`.
unfoldable pub encode : Str → Str
encode [] = []
encode (a ∷ []) = char_of (a / 4) ∷ char_of (a % 4 * 16) ∷ b'=' ∷ b'=' ∷ []
encode (a ∷ b ∷ []) =
    char_of (a / 4) ∷ char_of (a % 4 * 16 + b / 16) ∷ char_of (b % 16 * 4) ∷ b'=' ∷ []
encode (a ∷ b ∷ c ∷ s) =
    char_of (a / 4)
    ∷ char_of (a % 4 * 16 + b / 16)
    ∷ char_of (b % 16 * 4 + c / 64)
    ∷ char_of (c % 64)
    ∷ encode s
