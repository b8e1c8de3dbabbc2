-- ===== src/Bech32/Bits.antt =====
-- bech32/bech32.go: `convertBits`, which regroups digits of `frombits` bits into ones of `tobits`.
pub mod RoundTrip
use Prim.Native.Nat.{bit_or}
use keys.Common.{
  ℕ, zero, suc, ◌+◌, ◌-◌, ◌*◌, ◌/◌, ◌%◌, ◌^◌, List, [], ◌∷◌, ◌++◌, Bool, true, false, not, ◌==◌,
  ltb, leb, if◌then◌else◌, Result, ok, err, ◌>>=◌,
}

-- The errors of the package, one constructor for each place.
pub data Error : Type 0 where
  invalid_data_range illegal_zero_padding non_zero_padding : Error
  too_long invalid_hrp invalid_hrp_character mixed_case : Error
  separator_position invalid_character invalid_checksum : Error

-- The variables of the loop: `acc` is a `uint32`, `bits` a `byte`.
pub record Acc : Type 0 where
  pub acc : ℕ
  pub bits : ℕ

-- `byte(acc>>bits) & maxv`.
unfoldable pub top_digit : ℕ → ℕ → ℕ → ℕ
top_digit tobits acc bits = acc / 2 ^ bits % 256 % 2 ^ tobits

-- `byte(acc<<(tobits-bits)) & maxv`.
unfoldable pub pad_digit : ℕ → Acc → ℕ
pad_digit tobits a = a.acc * 2 ^ (tobits - a.bits) % 2 ^ 32 % 256 % 2 ^ tobits

-- `for bits >= tobits`: the digits it appends, and the bits that are left. A round takes `tobits`
-- bits, so `bits` rounds are enough.
unfoldable pub emit : ℕ → ℕ → Acc → List ℕ × ℕ
emit zero tobits a = ([], a.bits)
emit (suc fuel) tobits a =
    let left = a.bits - tobits in
    let rest = emit fuel tobits (record a { bits = left }) in
    if leb tobits a.bits then (top_digit tobits a.acc left ∷ rest.0, rest.1) else ([], a.bits)

-- `acc = acc<<frombits | uint32(value); bits += frombits`.
unfoldable pub shift_in : ℕ → Acc → ℕ → Acc
shift_in frombits a value = record {
  acc = bit_or (a.acc * 2 ^ frombits % 2 ^ 32) value;
  bits = (a.bits + frombits) % 256;
}

-- What stands after the loop.
unfoldable pub finish : ℕ → ℕ → Bool → Acc → Result Error (List ℕ)
finish frombits tobits true a = if ltb 0 a.bits then ok (pad_digit tobits a ∷ []) else ok []
finish frombits tobits false a =
    if leb frombits a.bits
    then err illegal_zero_padding
    else if not (pad_digit tobits a == 0)
    then err non_zero_padding
    else ok []

-- The loop over the data, and what follows it: the digits that are appended from here on.
unfoldable pub convert_from : ℕ → ℕ → Bool → Acc → List ℕ → Result Error (List ℕ)
convert_from frombits tobits pad a [] = finish frombits tobits pad a
convert_from frombits tobits pad a (value ∷ vs) =
    let s = shift_in frombits a value in
    let e = emit s.bits tobits s in
    let rest = convert_from frombits tobits pad (record s { bits = e.1 }) vs in
    if not (value / 2 ^ frombits == 0)
    then err invalid_data_range
    else (do out ← rest; ok (e.0 ++ out))

-- `convertBits(data, frombits, tobits, pad)`.
unfoldable pub convert_bits : List ℕ → ℕ → ℕ → Bool → Result Error (List ℕ)
convert_bits data_ frombits tobits pad =
    convert_from frombits tobits pad (record { acc = 0; bits = 0 }) data_
