-- ===== src/Address/Examples.antt =====
-- Runs of the theorems of addresses at concrete identifiers.
use keys.Common.{[], ◌∷◌, true, Str, str_eq, str_ltb, codes, ok, err, ◌≡◌, refl, arith}
use keys.Common.Assoc
use keys.Common.Sort.{mem, sort, insert_sorted}
use keys.Bech32.{decode, has_invalid_character, split_last, digits_of, decode_parts, index_from}
use keys.Bech32.Bits.{convert_bits, convert_from, shift_in, emit, finish, pad_digit}
use keys.Bech32.Case.{to_lower, to_upper, lower_char, upper_char, is_mixed}
use keys.Bech32.Checksum.{
  verify_checksum, polymod, polymod_from, polymod_step, apply_generators, apply_generator,
  hrp_expand,
}
use keys.Id.{is_valid_id, parse_id}
use keys.Address.{
  Address, new_address, fill_idmap, parse_address, string, strings, duplicate_address,
}
use keys.Address.Canonical.{new_address-same}
use keys.Address.Text.{parse_address-string}

abbrev one : Str
one = codes "a12uel5l"

abbrev two : Str
two = codes "b1y0vf6q"

-- What the identifiers compute with.
run_id : {A : Type 0} → A → A
unfolding is_valid_id parse_id decode has_invalid_character split_last digits_of decode_parts
    index_from convert_bits convert_from shift_in emit finish pad_digit to_lower to_upper lower_char
    upper_char is_mixed verify_checksum polymod polymod_from polymod_step apply_generators
    apply_generator hrp_expand str_eq
run_id a = a

-- What an address computes with.
run_address : {A : Type 0} → A → A
unfolding new_address fill_idmap sort insert_sorted Assoc.lookup Assoc.insert str_eq str_ltb string
    strings mem
run_address a = a

abbrev both : Address
both = record { ids = one ∷ two ∷ []; idmap = (one, true) ∷ (two, true) ∷ [] }

in_order : new_address (one ∷ two ∷ []) ≡ ok both
unfolding run_address
in_order = refl

out_of_order : new_address (two ∷ one ∷ []) ≡ ok both
unfolding run_address
out_of_order = refl

twice : new_address (one ∷ two ∷ one ∷ []) ≡ err duplicate_address
unfolding run_address
twice = refl

same_ids : (k : Str) → mem k (one ∷ two ∷ []) ≡ mem k (two ∷ one ∷ [])
unfolding mem
same_ids k = ground arith

new_address-same_example : both ≡ both
new_address-same_example =
    new_address-same (one ∷ two ∷ []) (two ∷ one ∷ []) both both in_order out_of_order same_ids

valid_one : is_valid_id one ≡ true
unfolding run_id
valid_one = refl

valid_two : is_valid_id two ≡ true
unfolding run_id
valid_two = refl

parse_address-string_example : parse_address (string both ∷ []) ≡ ok both
parse_address-string_example =
    parse_address-string (two ∷ one ∷ []) both out_of_order (valid_one, (valid_two, tt))
      (omega arith, omega arith)
