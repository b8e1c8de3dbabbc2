-- ===== src/Bech32.antt =====
-- bech32/bech32.go: the Bech32 text form of a prefix (HRP) and bytes.
-- A text is its bytes. The case maps act on ASCII letters: what Go's Unicode tables map beyond
-- ASCII is not modelled. `x & (2^k - 1)` is `x % 2 ^ k`, and `byte(x)` is `x % 256`.
pub mod Bits
pub mod Checksum
pub mod Case
pub mod Chars
pub mod RoundTrip
mod Examples
use keys.Common.{
  ℕ, zero, suc, ◌+◌, ◌-◌, ◌*◌, ◌%◌, ◌^◌, List, [], ◌∷◌, ◌++◌, Option, none, some, Bool, true, false,
  not, ◌&&◌, ◌||◌, ◌==◌, Str, str_eq, codes, length, take, drop, get_elem?, ltb, leb, if◌then◌else◌,
  Result, ok, err, ◌>>=◌, ◌>>◌, fail_if,
}
use Bits.{convert_bits}
use Checksum.{verify_checksum, create_checksum}
use Case.{to_lower, to_upper, is_mixed}
pub use Bits.{
  Error, invalid_data_range, illegal_zero_padding, non_zero_padding, too_long, invalid_hrp,
  invalid_hrp_character, mixed_case, separator_position, invalid_character, invalid_checksum,
}

abbrev pub charset : Str
charset = codes "qpzry9x8gf2tvdw0s3jn54khce6mua7l"

-- `charset[p]`; an index past the end would be a panic, and reads as 0 here.
unfoldable pub char_of : ℕ → ℕ
char_of p = elim (get_elem? charset p) [ none ↦ 0 | some c ↦ c ]

unfoldable pub chars_of : List ℕ → Str
chars_of [] = []
chars_of (p ∷ ps) = char_of p ∷ chars_of ps

-- Some character of the HRP is out of range.
unfoldable pub has_invalid_character : Str → Bool
has_invalid_character [] = false
has_invalid_character (c ∷ s) = (ltb c 33 || ltb 126 c) || has_invalid_character s

-- `Encode(hrp, data)`.
unfoldable pub encode : Str → List ℕ → Result Error Str
encode hrp data_ = do
  values ← convert_bits data_ 8 5 true
  fail_if (ltb 90 (length hrp + length values + 7)) too_long
  fail_if (ltb (length hrp) 1) invalid_hrp
  fail_if (has_invalid_character hrp) invalid_hrp_character
  fail_if (is_mixed hrp) mixed_case
  let lower = str_eq (to_lower hrp) hrp
  let low_hrp = to_lower hrp
  let ret = low_hrp ++ b'1' ∷ (chars_of values ++ chars_of (create_checksum low_hrp values))
  ok (if lower then ret else to_upper ret)

-- `strings.LastIndex(s, "1")`: the part before the last separator and the part after it.
unfoldable pub split_last : Str → Option (Str × Str)
split_last [] = none
split_last (c ∷ s) = elim (split_last s) [
  | some (hrp, rest) ↦ some (c ∷ hrp, rest)
  | none ↦ if c == b'1' then some ([], s) else none
]

-- `strings.IndexRune(charset, c)`, from the index `i` on.
unfoldable pub index_from : Str → ℕ → ℕ → Option ℕ
index_from [] c i = none
index_from (d ∷ ds) c i = if d == c then some i else index_from ds c (i + 1)

-- The loop over the characters behind the separator.
unfoldable pub digits_of : Str → Result Error (List ℕ)
digits_of [] = ok []
digits_of (c ∷ s) = elim (index_from charset c 0) [
  | none ↦ err invalid_character
  | some d ↦ do ds ← digits_of s; ok (d ∷ ds)
]

-- `Decode` from the two parts of the text on.
unfoldable pub decode_parts : Str → Str → Result Error (Str × List ℕ)
decode_parts hrp rest = do
  fail_if (ltb (length hrp) 1 || ltb (length rest) 6) separator_position
  fail_if (has_invalid_character hrp) invalid_hrp_character
  data_ ← digits_of (to_lower rest)
  fail_if (not (verify_checksum hrp data_)) invalid_checksum
  out ← convert_bits (take (length data_ - 6) data_) 5 8 false
  ok (hrp, out)

-- `Decode(s)`.
unfoldable pub decode : Str → Result Error (Str × List ℕ)
decode s = do
  fail_if (ltb 90 (length s)) too_long
  fail_if (is_mixed s) mixed_case
  elim (split_last s) [ none ↦ err separator_position | some (hrp, rest) ↦ decode_parts hrp rest ]
