-- ===== src/Id.antt =====
-- id.go: key identifiers, which are Bech32 texts, and sets of them.
pub mod Set
use keys.Common.{
  ℕ, List, [], ◌∷◌, ◌++◌, Option, none, some, Bool, true, false, ◌==◌, Str, str_eq, codes,
  if◌then◌else◌, Result, ok, err, ◌>>=◌, length, replicate, ltb, ◌-◌, ◌+◌,
}
use keys.Common.Int.{ℤ, pos, negsuc, itoa}
use keys.Bech32

pub data Error : Type 0 where
  empty_string : Error
  failed_to_parse : Bech32.Error → Error
  failed_to_encode : Bech32.Error → Error

-- `NewID(hrp, b)`.
unfoldable pub new_id : Str → Str → Result Error Str
new_id hrp b = elim (Bech32.encode hrp b) [ ok s ↦ ok s | err e ↦ err (failed_to_encode e) ]

-- `ParseID(s)`.
unfoldable pub parse_id : Str → Result Error Str
parse_id [] = err empty_string
parse_id (c ∷ s) = elim (Bech32.decode (c ∷ s)) [
  | ok _ ↦ ok (c ∷ s)
  | err e ↦ err (failed_to_parse e)
]

unfoldable pub is_valid_id : Str → Bool
is_valid_id s = elim (parse_id s) [ ok _ ↦ true | err _ ↦ false ]

-- `ParseIDs(strs)`.
unfoldable pub parse_ids : List Str → Result Error (List Str)
parse_ids [] = ok []
parse_ids (s ∷ ss) = do id ← parse_id s; ids ← parse_ids ss; ok (id ∷ ids)

abbrev pub edx25519_key_hrp : Str
edx25519_key_hrp = codes "kex"

abbrev pub x25519_key_hrp : Str
x25519_key_hrp = codes "kbx"

-- `i.IsEdX25519()`.
unfoldable pub is_edx25519 : Str → Bool
is_edx25519 i = elim (Bech32.decode i) [ err _ ↦ false | ok (hrp, _) ↦ str_eq hrp edx25519_key_hrp ]

-- `i.IsX25519()`.
unfoldable pub is_x25519 : Str → Bool
is_x25519 i = elim (Bech32.decode i) [ err _ ↦ false | ok (hrp, _) ↦ str_eq hrp x25519_key_hrp ]

pub data KeyType : Type 0 where
  edx25519 x25519 unknown : KeyType

-- `i.Type()`; `unknown` is the empty key type.
unfoldable pub type_of : Str → KeyType
type_of i = elim (Bech32.decode i) [
  | err _ ↦ unknown
  | ok (hrp, _) ↦
      if str_eq hrp edx25519_key_hrp
      then edx25519
      else if str_eq hrp x25519_key_hrp
      then x25519
      else unknown
]

-- `i.Public()`; `none` is nil.
unfoldable pub public_of : Str → Option Str
public_of i = elim (Bech32.decode i) [ err _ ↦ none | ok (_, b) ↦ some b ]

-- `%015d`: the sign, and zeros up to a width of 15 characters in all.
unfoldable pub pad_15 : ℤ → Str
pad_15 (pos n) = let s = itoa (pos n) in replicate (15 - length s) b'0' ++ s
pad_15 (negsuc n) = let s = itoa (pos (n + 1)) in b'-' ∷ (replicate (14 - length s) b'0' ++ s)

-- `i.WithSeq(seq)`; `none` is the panic at 0.
unfoldable pub with_seq : Str → ℤ → Option Str
with_seq i (pos n) = if n == 0 then none else some (i ++ b'-' ∷ pad_15 (pos n))
with_seq i (negsuc n) = some (i ++ b'-' ∷ pad_15 (negsuc n))
