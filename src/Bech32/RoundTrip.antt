-- ===== src/Bech32/RoundTrip.antt =====
-- bech32/bech32.go: what `Encode` writes, `Decode` reads.
use keys.Common.{
  ℕ, ◌+◌, ◌-◌, ◌*◌, ◌≤◌, ◌<◌, List, [], ◌∷◌, ◌++◌, none, some, true, false, ◌||◌, Str, str_eq,
  str_eq_iff, length, length-append, take, take-append, ltb, if◌then◌else◌, ok, All, All-append,
  ◌≡◌, inl, inr, refl, arith, ap, ap₂, ◌∙◌,
}
use keys.Common.Split.{Lacks}
use keys.Bech32.{
  has_invalid_character, chars_of, encode, split_last, digits_of, decode_parts, decode,
}
use keys.Bech32.Bits.{convert_bits}
use keys.Bech32.Bits.RoundTrip.{convert_bits-convert_bits}
use keys.Bech32.Case.{lower_char, upper_char, to_lower, to_upper, is_mixed}
use keys.Bech32.Case.Laws.{
  length-to_upper, to_lower-append, to_upper-append, to_lower-to_lower, to_upper-to_upper,
  to_upper-to_lower, All-to_lower, is_mixed_lower, is_mixed_upper, is_mixed-cases,
}
use keys.Bech32.Chars.{
  length-chars_of, chars_of-append, to_lower-chars_of, to_lower-to_upper-chars_of, chars_of-Lacks,
  to_upper-chars_of-Lacks, digits_of-chars_of,
}
use keys.Bech32.Checksum.{
  hrp_expand, verify_checksum, checksum_digits, checksum_digit, create_checksum,
}
use keys.Bech32.Checksum.Valid.{verify_checksum-create_checksum}

-- The text of a prefix and digits, with the checksum behind the digits.
abbrev digits : Str → List ℕ → List ℕ
digits hrp ds = ds ++ create_checksum (to_lower hrp) ds

abbrev text : Str → List ℕ → Str
text hrp ds = to_lower hrp ++ b'1' ∷ chars_of (digits hrp ds)

-- What `Encode` has checked when it returns, and what it returns.
record IsEncoded (hrp : Str) (ds : List ℕ) (s : Str) : Type 0 where
  short : length hrp + length ds + 7 ≤ 90
  some_hrp : 1 ≤ length hrp
  characters : has_invalid_character hrp ≡ false
  one_case : is_mixed hrp ≡ false
  written : s ≡ (if str_eq (to_lower hrp) hrp then text hrp ds else to_upper (text hrp ds))

encode-IsEncoded :
    (hrp : Str) (bytes ds : List ℕ) (s : Str)
    → convert_bits bytes 8 5 true ≡ ok ds
    → encode hrp bytes ≡ ok s
    → IsEncoded hrp ds s
unfolding encode
encode-IsEncoded hrp bytes ds s converted h = record {
  short = ground (arith, converted);
  some_hrp = ground (arith, converted);
  characters = ground (arith, converted);
  one_case = ground (arith, converted);
  written = ground (arith, converted, chars_of-append ds (create_checksum (to_lower hrp) ds));
}

split_last-Lacks : (s : Str) → Lacks b'1' s → split_last s ≡ none
unfolding split_last
split_last-Lacks [] _ = refl
split_last-Lacks (c ∷ s) (h, hs) = ground (arith, split_last-Lacks s hs)

-- The last separator is the one in front of a text without any.
split_last-append :
    (hrp rest : Str) → Lacks b'1' rest → split_last (hrp ++ b'1' ∷ rest) ≡ some (hrp, rest)
unfolding split_last
split_last-append [] rest h = ground (arith, split_last-Lacks rest h)
split_last-append (c ∷ hrp) rest h = rw (split_last, split_last-append hrp rest h)

has_invalid_character-All : (s : Str) → has_invalid_character s ≡ false → All (λ c. c < 127) s
unfolding has_invalid_character
has_invalid_character-All [] _ = tt
has_invalid_character-All (c ∷ s) h = (ground arith, has_invalid_character-All s (ground arith))

create_checksum-digits :
    (hrp : Str) (ds : List ℕ)
    → (length (create_checksum hrp ds) ≡ 6) × All (λ v. v < 32) (create_checksum hrp ds)
unfolding create_checksum checksum_digits checksum_digit
create_checksum-digits hrp ds = (
  refl,
  (omega arith, (omega arith, (omega arith, (omega arith, (omega arith, (omega arith, tt)))))),
)

create_checksum-to_lower :
    (hrp : Str) (ds : List ℕ) → create_checksum (to_lower hrp) ds ≡ create_checksum hrp ds
unfolding create_checksum hrp_expand
create_checksum-to_lower hrp ds = rw (to_lower-to_lower hrp)

-- `Decode` of the two parts, where the characters in lower case are those of the digits.
module _ (hrp rest : Str) (bytes ds : List ℕ) (fit : All (λ v. v < 32) ds) where
  decode_parts_lem :
      1 ≤ length hrp
      → has_invalid_character hrp ≡ false
      → to_lower rest ≡ chars_of (digits hrp ds)
      → length rest ≡ length ds + 6
      → convert_bits ds 5 8 false ≡ ok bytes
      → decode_parts hrp rest ≡ ok (hrp, bytes)
  unfolding decode_parts
  decode_parts_lem some_hrp characters lowered long converted =
      let (six, checksum_fit) = create_checksum-digits (to_lower hrp) ds in
      let read : digits_of (to_lower rest) ≡ ok (digits hrp ds) =
        ap digits_of lowered
        ∙ digits_of-chars_of (digits hrp ds) (All-append _ ds _ fit checksum_fit) in
      let valid : verify_checksum hrp (digits hrp ds) ≡ true =
        ap (λ t. verify_checksum hrp (ds ++ t)) (create_checksum-to_lower hrp ds)
        ∙ verify_checksum-create_checksum hrp ds
            (All-to_lower hrp (has_invalid_character-All hrp characters)) fit in
      let kept : take (length (digits hrp ds) - 6) (digits hrp ds) ≡ ds =
        ap (λ n. take n (digits hrp ds))
          (omega (arith, length-append ds (create_checksum (to_lower hrp) ds), six))
        ∙ take-append ds (create_checksum (to_lower hrp) ds) in
      let long_enough : (ltb (length hrp) 1 || ltb (length rest) 6) ≡ false = ground arith in
      rw (decode_parts, long_enough, characters, read, valid, kept, converted)

-- `Decode` of a text in one case that ends in such a part.
module _ (hrp rest : Str) (bytes ds : List ℕ) (fit : All (λ v. v < 32) ds) where
  decode_lem :
      1 ≤ length hrp
      → has_invalid_character hrp ≡ false
      → to_lower rest ≡ chars_of (digits hrp ds)
      → length rest ≡ length ds + 6
      → convert_bits ds 5 8 false ≡ ok bytes
      → length hrp + length ds + 7 ≤ 90
      → Lacks b'1' rest
      → is_mixed (hrp ++ b'1' ∷ rest) ≡ false
      → decode (hrp ++ b'1' ∷ rest) ≡ ok (hrp, bytes)
  unfolding decode
  decode_lem some_hrp characters lowered long converted short lacks one_case =
      let fits : ltb 90 (length (hrp ++ b'1' ∷ rest)) ≡ false =
        ground (arith, length-append hrp (b'1' ∷ rest)) in
      rw (decode, fits, one_case, split_last-append hrp rest lacks)
        (decode_parts_lem hrp rest bytes ds fit some_hrp characters lowered long converted)

length-chars_of-digits :
    (hrp : Str) (ds : List ℕ) → length (chars_of (digits hrp ds)) ≡ length ds + 6
length-chars_of-digits hrp ds =
    length-chars_of (digits hrp ds)
    ∙ omega (
      arith,
      length-append ds (create_checksum (to_lower hrp) ds),
      (create_checksum-digits (to_lower hrp) ds).0,
    )

digits-fit : (hrp : Str) (ds : List ℕ) → All (λ v. v < 32) ds → All (λ v. v < 32) (digits hrp ds)
digits-fit hrp ds fit = All-append _ ds _ fit (create_checksum-digits (to_lower hrp) ds).1

lower_text :
    (hrp : Str) (ds : List ℕ)
    → to_lower hrp ≡ hrp
    → (if str_eq (to_lower hrp) hrp then text hrp ds else to_upper (text hrp ds))
      ≡ hrp ++ b'1' ∷ chars_of (digits hrp ds)
lower_text hrp ds lower =
    let same = (str_eq_iff (to_lower hrp) hrp).1 lower in
    rw same (ap (λ t. t ++ b'1' ∷ chars_of (digits hrp ds)) lower)

to_lower-parts :
    (s t : Str) → to_lower s ≡ s → to_lower t ≡ t → to_lower (s ++ b'1' ∷ t) ≡ s ++ b'1' ∷ t
unfolding to_lower lower_char
to_lower-parts s t p q = to_lower-append s (b'1' ∷ t) ∙ ap₂ ◌++◌ p (ap (◌∷◌ b'1') q)

to_upper-parts :
    (s t : Str) → to_upper s ≡ s → to_upper t ≡ t → to_upper (s ++ b'1' ∷ t) ≡ s ++ b'1' ∷ t
unfolding to_upper upper_char
to_upper-parts s t p q = to_upper-append s (b'1' ∷ t) ∙ ap₂ ◌++◌ p (ap (◌∷◌ b'1') q)

upper_text :
    (hrp : Str) (ds : List ℕ)
    → str_eq (to_lower hrp) hrp ≡ false
    → to_upper hrp ≡ hrp
    → (if str_eq (to_lower hrp) hrp then text hrp ds else to_upper (text hrp ds))
      ≡ hrp ++ b'1' ∷ to_upper (chars_of (digits hrp ds))
unfolding to_upper upper_char
upper_text hrp ds no_lower upper =
    let chars = chars_of (digits hrp ds) in
    rw no_lower (
      to_upper-append (to_lower hrp) (b'1' ∷ chars)
      ∙ ap (λ t. t ++ b'1' ∷ to_upper chars) (to_upper-to_lower hrp ∙ upper))

-- Where `Encode` of a human-readable part and of bytes succeeds, `Decode` of its text gives that
-- part, in its case, and those bytes.
pub decode-encode :
    (hrp : Str) (bytes : List ℕ) (s : Str)
    → All (λ b. b < 256) bytes
    → encode hrp bytes ≡ ok s
    → decode s ≡ ok (hrp, bytes)
decode-encode hrp bytes s byte h =
    let (ds, encoded, decoded, fit, _, _) = convert_bits-convert_bits bytes byte in
    let e = encode-IsEncoded hrp bytes ds s encoded h in
    let chars = chars_of (digits hrp ds) in
    let all_fit = digits-fit hrp ds fit in
    elim (is_mixed-cases hrp e.one_case) [
      | inl lower ↦
          (let is_text : s ≡ hrp ++ b'1' ∷ chars = e.written ∙ lower_text hrp ds lower in
            let low : to_lower (hrp ++ b'1' ∷ chars) ≡ hrp ++ b'1' ∷ chars =
              to_lower-parts hrp chars lower (to_lower-chars_of _ all_fit) in
            rw is_text (
              decode_lem hrp chars bytes ds fit e.some_hrp e.characters
                (to_lower-chars_of _ all_fit) (length-chars_of-digits hrp ds) decoded e.short
                (chars_of-Lacks _ all_fit) (is_mixed_lower _ low)))
      | inr (no_lower, upper) ↦
          (let is_text : s ≡ hrp ++ b'1' ∷ to_upper chars =
              e.written ∙ upper_text hrp ds no_lower upper in
            let up : to_upper (hrp ++ b'1' ∷ to_upper chars) ≡ hrp ++ b'1' ∷ to_upper chars =
              to_upper-parts hrp (to_upper chars) upper (to_upper-to_upper chars) in
            rw is_text (
              decode_lem hrp (to_upper chars) bytes ds fit e.some_hrp e.characters
                (to_lower-to_upper-chars_of _ all_fit)
                (length-to_upper _ ∙ length-chars_of-digits hrp ds) decoded e.short
                (to_upper-chars_of-Lacks _ all_fit) (is_mixed_upper _ up)))
    ]

-- `Encode` succeeds for bytes and a human-readable part of one character or more, none of them
-- invalid, of one case, where both fit the 90 characters.
pub encode-some :
    (hrp : Str) (bytes : List ℕ)
    → All (λ b. b < 256) bytes
    → 1 ≤ length hrp
    → has_invalid_character hrp ≡ false
    → is_mixed hrp ≡ false
    → 5 * length hrp + 8 * length bytes ≤ 415
    → (s : Str) × (encode hrp bytes ≡ ok s)
unfolding encode
encode-some hrp bytes byte some_hrp characters one_case short =
    let (ds, encoded, _, _, low, high) = convert_bits-convert_bits bytes byte in
    let fits : ltb 90 (length hrp + length ds + 7) ≡ false = ground arith in
    let not_empty : ltb (length hrp) 1 ≡ false = ground arith in
    let ret =
      to_lower hrp ++ b'1' ∷ (chars_of ds ++ chars_of (create_checksum (to_lower hrp) ds)) in
    (
      if str_eq (to_lower hrp) hrp then ret else to_upper ret,
      rw (encode, encoded, fits, not_empty, characters, one_case),
    )
