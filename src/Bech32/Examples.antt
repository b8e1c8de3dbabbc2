-- ===== src/Bech32/Examples.antt =====
-- bech32/bech32.go: concrete texts, the first and the last two of bech32_test.go among them.
use keys.Common.{[], Str, codes, Result, ok, err, ◌≡◌, refl}
use keys.Bech32.{
  Error, encode, decode, invalid_checksum, mixed_case, has_invalid_character, char_of, chars_of,
  split_last, digits_of, decode_parts, index_from,
}
use keys.Bech32.Bits.{convert_bits, convert_from, shift_in, emit, top_digit, finish, pad_digit}
use keys.Bech32.Case.{to_lower, to_upper, lower_char, upper_char, is_mixed}
use keys.Bech32.Checksum.{
  verify_checksum, create_checksum, polymod, polymod_from, polymod_step, apply_generators,
  apply_generator, hrp_expand, checksum_digits, checksum_digit,
}
use keys.Bech32.RoundTrip.{decode-encode}
use keys.Common.{str_eq}

-- All that the texts below compute with.
run : Result Error Str → Result Error Str
unfolding encode has_invalid_character chars_of char_of convert_bits convert_from shift_in emit
    top_digit finish pad_digit to_lower to_upper lower_char upper_char is_mixed create_checksum
    polymod polymod_from polymod_step apply_generators apply_generator hrp_expand checksum_digits
    checksum_digit str_eq decode split_last digits_of decode_parts index_from verify_checksum
run r = r

empty_upper : encode (codes "A") [] ≡ ok (codes "A12UEL5L")
unfolding run
empty_upper = refl

decode_empty_upper : decode (codes "A12UEL5L") ≡ ok (codes "A", [])
unfolding run
decode_empty_upper = refl

wrong_checksum : decode (codes "a12uel5m") ≡ err invalid_checksum
unfolding run
wrong_checksum = refl

mixed : decode (codes "a12UEL5L") ≡ err mixed_case
unfolding run
mixed = refl

decode-encode_example : decode (codes "A12UEL5L") ≡ ok (codes "A", [])
decode-encode_example = decode-encode (codes "A") [] (codes "A12UEL5L") tt empty_upper
