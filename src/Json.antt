-- ===== src/Json.antt =====
-- json/marshal.go: a JSON object of strings and integers, written without escapes.
pub mod Laws
use keys.Common.{
  ℕ, List, [], ◌∷◌, ◌++◌, Bool, true, false, not, ◌&&◌, ◌||◌, ◌==◌, Str, codes, if◌then◌else◌,
  Result, ok, err, ◌>>=◌, ◌>>◌, fail_if,
}
use keys.Common.Int.{ℤ, itoa}
use keys.Common.Split.{join}
use keys.Encoding.Is.{is_alpha_numeric, is_ascii}

pub data Entry : Type 0 where
  string_entry : Str → Str → Entry
  int_entry : Str → ℤ → Entry

pub data Error : Type 0 where
  invalid_key invalid_value : Error

unfoldable pub all_quotes : Str → Bool
all_quotes [] = true
all_quotes (c ∷ s) = c == b'"' && all_quotes s

-- The expression `^[\"]+$`: one quote or more, and nothing else.
unfoldable pub needs_escape : Str → Bool
needs_escape [] = false
needs_escape (c ∷ s) = all_quotes (c ∷ s)

unfoldable pub marshal_text : Entry → Result Error Str
marshal_text (string_entry key value) = do
  fail_if (not (is_alpha_numeric key (codes "."))) invalid_key
  fail_if (needs_escape value) invalid_value
  fail_if (not (is_ascii value)) invalid_value
  ok (b'"' ∷ key ++ codes "\":\"" ++ value ++ b'"' ∷ [])
marshal_text (int_entry key value) = do
  fail_if (not (is_alpha_numeric key (codes "."))) invalid_key
  ok (b'"' ∷ key ++ codes "\":" ++ itoa value)

-- The loop of `Marshal`.
unfoldable pub marshal_all : List Entry → Result Error (List Str)
marshal_all [] = ok []
marshal_all (e ∷ es) = do b ← marshal_text e; bs ← marshal_all es; ok (b ∷ bs)

-- `Marshal(vals...)`.
unfoldable pub marshal : List Entry → Result Error Str
marshal vals = do out ← marshal_all vals; ok (b'{' ∷ join out b',' ++ b'}' ∷ [])
