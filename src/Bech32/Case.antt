-- ===== src/Bech32/Case.antt =====
-- `strings.ToLower` and `strings.ToUpper` on ASCII letters.
pub mod Laws
use keys.Common.{ℕ, ◌+◌, ◌-◌, List, [], ◌∷◌, Bool, ◌&&◌, not, Str, str_eq, leb, if◌then◌else◌}

unfoldable pub lower_char : ℕ → ℕ
lower_char c = if leb b'A' c && leb c b'Z' then c + 32 else c

unfoldable pub upper_char : ℕ → ℕ
upper_char c = if leb b'a' c && leb c b'z' then c - 32 else c

unfoldable pub to_lower : Str → Str
to_lower [] = []
to_lower (c ∷ s) = lower_char c ∷ to_lower s

unfoldable pub to_upper : Str → Str
to_upper [] = []
to_upper (c ∷ s) = upper_char c ∷ to_upper s

-- Neither all upper nor all lower case.
unfoldable pub is_mixed : Str → Bool
is_mixed s = not (str_eq (to_upper s) s) && not (str_eq (to_lower s) s)
