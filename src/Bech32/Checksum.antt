-- ===== src/Bech32/Checksum.antt =====
-- bech32/bech32.go: `polymod`, `hrpExpand`, `verifyChecksum` and `createChecksum`.
pub mod Linear
pub mod Valid
use Prim.Native.Nat.{bit_xor}
use keys.Common.{
  ℕ, ◌+◌, ◌-◌, ◌*◌, ◌/◌, ◌%◌, ◌^◌, List, [], ◌∷◌, ◌++◌, Bool, ◌==◌, Str, if◌then◌else◌,
}
use keys.Bech32.Case.{to_lower}

-- `if top>>i&1 == 1 { chk ^= generator[i] }`.
unfoldable pub apply_generator : ℕ → ℕ → ℕ → ℕ → ℕ
apply_generator top i g chk = if top / 2 ^ i % 2 == 1 then bit_xor chk g else chk

-- The inner loop over the five generators.
unfoldable pub apply_generators : ℕ → ℕ → ℕ
apply_generators top chk = apply_generator top 4 0x2a1462b3 (
    apply_generator top 3 0x3d4233dd (
      apply_generator top 2 0x1ea119fa
        (apply_generator top 1 0x26508e6d (apply_generator top 0 0x3b6a57b2 chk))))

-- One round of `polymod`.
unfoldable pub polymod_step : ℕ → ℕ → ℕ
polymod_step chk v = apply_generators (chk / 2 ^ 25) (bit_xor (chk % 2 ^ 25 * 2 ^ 5 % 2 ^ 32) v)

-- The loop of `polymod`.
unfoldable pub polymod_from : ℕ → List ℕ → ℕ
polymod_from chk [] = chk
polymod_from chk (v ∷ vs) = polymod_from (polymod_step chk v) vs

unfoldable pub polymod : List ℕ → ℕ
polymod values = polymod_from 1 values

pub high_bits : Str → List ℕ
high_bits [] = []
high_bits (c ∷ h) = c / 2 ^ 5 ∷ high_bits h

pub low_bits : Str → List ℕ
low_bits [] = []
low_bits (c ∷ h) = c % 2 ^ 5 ∷ low_bits h

-- `hrpExpand(hrp)`.
unfoldable pub hrp_expand : Str → List ℕ
unfolding high_bits low_bits
hrp_expand hrp = high_bits (to_lower hrp) ++ 0 ∷ low_bits (to_lower hrp)

unfoldable pub verify_checksum : Str → List ℕ → Bool
verify_checksum hrp values = polymod (hrp_expand hrp ++ values) == 1

-- `byte(mod>>shift) & 31` at `shift := 5 * (5 - p)`.
unfoldable pub checksum_digit : ℕ → ℕ → ℕ
checksum_digit mod_ p = mod_ / 2 ^ (5 * (5 - p)) % 256 % 2 ^ 5

unfoldable pub checksum_digits : ℕ → List ℕ
checksum_digits mod_ =
    checksum_digit mod_ 0
    ∷ checksum_digit mod_ 1
    ∷ checksum_digit mod_ 2
    ∷ checksum_digit mod_ 3
    ∷ checksum_digit mod_ 4
    ∷ checksum_digit mod_ 5
    ∷ []

unfoldable pub create_checksum : Str → List ℕ → List ℕ
create_checksum hrp values =
    checksum_digits (bit_xor (polymod ((hrp_expand hrp ++ values) ++ 0 ∷ 0 ∷ 0 ∷ 0 ∷ 0 ∷ 0 ∷ [])) 1)
