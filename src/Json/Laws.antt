-- ===== src/Json/Laws.antt =====
-- json/marshal.go: which values are written.
use keys.Common.{ℕ, [], ◌∷◌, ◌++◌, true, false, Str, codes, ok, ◌≡◌, ◌≢◌, arith}
use keys.Encoding.Is.{is_alpha_numeric, is_ascii}
use keys.Json.{string_entry, marshal_text, all_quotes, needs_escape}

all_quotes-append : (s t : Str) (c : ℕ) → c ≢ b'"' → all_quotes (s ++ c ∷ t) ≡ false
unfolding all_quotes
all_quotes-append [] t c h = ground arith
all_quotes-append (d ∷ s) t c h = ground (arith, all_quotes-append s t c h)

needs_escape-append : (s t : Str) (c : ℕ) → c ≢ b'"' → needs_escape (s ++ c ∷ t) ≡ false
unfolding needs_escape
needs_escape-append [] t c h = all_quotes-append [] t c h
needs_escape-append (d ∷ s) t c h = all_quotes-append (d ∷ s) t c h

-- A string entry, with a valid key and an ASCII value that has any character but a quote, is
-- written with the value as it is, quotes inside it included.
pub marshal_text-unescaped :
    (key s t : Str) (c : ℕ)
    → is_alpha_numeric key (codes ".") ≡ true
    → is_ascii (s ++ c ∷ t) ≡ true
    → c ≢ b'"'
    → marshal_text (string_entry key (s ++ c ∷ t))
      ≡ ok (b'"' ∷ key ++ codes "\":\"" ++ (s ++ c ∷ t) ++ b'"' ∷ [])
unfolding marshal_text
marshal_text-unescaped key s t c k a h = rw (k, needs_escape-append s t c h, a)
