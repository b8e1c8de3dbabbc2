-- ===== src/Bech32/Chars.antt =====
-- bech32/bech32.go: the characters of the charset stand for their digits.
use keys.Common.{
  ℕ, suc, ◌<◌, List, [], ◌∷◌, ◌++◌, Option, none, some, Bool, true, false, ◌&&◌, not, ◌==◌, length,
  ok, All, ◌≡◌, ◌≢◌, refl, arith, ap, ap₂,
}
use keys.Common.Split.{Lacks}
use keys.Bech32.Case.{lower_char, upper_char, to_lower, to_upper}
use keys.Bech32.Checksum.Linear.{all_below, all_below_sound}
use keys.Bech32.{charset, char_of, chars_of, index_from, digits_of}

is_index : ℕ → Option ℕ → Bool
is_index d none = false
is_index d (some i) = i == d

char_table :
    all_below 32 (λ d.
      is_index d (index_from charset (char_of d) 0)
      && (lower_char (char_of d) == char_of d
          && (lower_char (upper_char (char_of d)) == char_of d
              && (not (char_of d == b'1') && not (upper_char (char_of d) == b'1')))))
    ≡ true
unfolding all_below char_of index_from is_index lower_char upper_char
char_table = refl

record HasDigit (d : ℕ) : Type 0 where
  found : index_from charset (char_of d) 0 ≡ some d
  lower : lower_char (char_of d) ≡ char_of d
  upper : lower_char (upper_char (char_of d)) ≡ char_of d
  no_one : char_of d ≢ b'1'
  no_one_upper : upper_char (char_of d) ≢ b'1'

is_index-eq : (d : ℕ) (o : Option ℕ) → is_index d o ≡ true → o ≡ some d
unfolding is_index
is_index-eq d none h = cc
is_index-eq d (some i) h = ground arith

char_of-HasDigit : (d : ℕ) → d < 32 → HasDigit d
char_of-HasDigit d h =
    let r = all_below_sound 32 _ d char_table h in
    record {
      found = is_index-eq d _ (ground (arith, r));
      lower = ground (arith, r);
      upper = ground (arith, r);
      no_one = ground (arith, r);
      no_one_upper = ground (arith, r);
    }

pub length-chars_of : (ds : List ℕ) → length (chars_of ds) ≡ length ds
unfolding chars_of
length-chars_of [] = refl
length-chars_of (d ∷ ds) = ap suc (length-chars_of ds)

pub chars_of-append : (ds es : List ℕ) → chars_of (ds ++ es) ≡ chars_of ds ++ chars_of es
unfolding chars_of
chars_of-append [] es = refl
chars_of-append (d ∷ ds) es = ap (◌∷◌ (char_of d)) (chars_of-append ds es)

-- The characters of digits are lower case, come back from upper case, and are no separator.
pub to_lower-chars_of : (ds : List ℕ) → All (λ d. d < 32) ds → to_lower (chars_of ds) ≡ chars_of ds
unfolding chars_of to_lower
to_lower-chars_of [] _ = refl
to_lower-chars_of (d ∷ ds) (h, hs) = ap₂ ◌∷◌ (char_of-HasDigit d h).lower (to_lower-chars_of ds hs)

pub to_lower-to_upper-chars_of :
    (ds : List ℕ) → All (λ d. d < 32) ds → to_lower (to_upper (chars_of ds)) ≡ chars_of ds
unfolding chars_of to_lower to_upper
to_lower-to_upper-chars_of [] _ = refl
to_lower-to_upper-chars_of (d ∷ ds) (h, hs) =
    ap₂ ◌∷◌ (char_of-HasDigit d h).upper (to_lower-to_upper-chars_of ds hs)

pub chars_of-Lacks : (ds : List ℕ) → All (λ d. d < 32) ds → Lacks b'1' (chars_of ds)
unfolding chars_of
chars_of-Lacks [] _ = tt
chars_of-Lacks (d ∷ ds) (h, hs) = ((char_of-HasDigit d h).no_one, chars_of-Lacks ds hs)

pub to_upper-chars_of-Lacks :
    (ds : List ℕ) → All (λ d. d < 32) ds → Lacks b'1' (to_upper (chars_of ds))
unfolding chars_of to_upper
to_upper-chars_of-Lacks [] _ = tt
to_upper-chars_of-Lacks (d ∷ ds) (h, hs) =
    ((char_of-HasDigit d h).no_one_upper, to_upper-chars_of-Lacks ds hs)

-- The digits of the characters of digits are those.
pub digits_of-chars_of : (ds : List ℕ) → All (λ d. d < 32) ds → digits_of (chars_of ds) ≡ ok ds
unfolding digits_of chars_of
digits_of-chars_of [] _ = refl
digits_of-chars_of (d ∷ ds) (h, hs) =
    rw (digits_of, (char_of-HasDigit d h).found, digits_of-chars_of ds hs)
