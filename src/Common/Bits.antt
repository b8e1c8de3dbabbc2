-- ===== src/Common/Bits.antt =====
-- `|` and `^` on numbers as arithmetic. The native operations mean a recursion on binary digits
-- with fuel; here the fuel is dropped.
pub mod Xor
use Prim.Native.Nat.{
  ℕ, zero, suc, ◌+◌, ◌*◌, ◌/◌, ◌%◌, ◌^◌, ◌≤◌, ◌<◌, max, differ, digits, bitwise, bit_or,
  bit_or-bitwise, bit_xor, bit_xor-bitwise, ◌-◌,
}
use mathlib.Core.Path.{◌≡◌, refl, ap, ◌∙◌, sym}
use native.Mathlib.Nat.{pow-suc}
use native.Mathlib.Omega.{arith}

module _ (low : ℕ → ℕ) (digit : ℕ → ℕ → ℕ) where
  -- A round past the end changes nothing.
  one_more : (n m k : ℕ) → m ≤ n → digits low digit (suc n) m k ≡ digits low digit n m k
  one_more zero zero k h = refl
  one_more (suc n) zero k h = refl
  one_more zero (suc m) k h = absurd (omega arith)
  one_more (suc n) (suc m) k h =
      ap (λ t. t * 2 + digit (suc m % 2) (k % 2)) (one_more n (suc m / 2) (k / 2) (omega arith))

  -- Nor does any number of those.
  any_more : (e n m k : ℕ) → n ≡ e + m → digits low digit n m k ≡ bitwise low digit m k
  any_more zero n m k h = ap (λ r. digits low digit r m k) (omega arith)
  any_more (suc e) zero m k h = absurd (omega arith)
  any_more (suc e) (suc n) m k h = one_more n m k (omega arith) ∙ any_more e n m k (omega arith)

  halve_suc :
      (m k : ℕ)
      → bitwise low digit (suc m) k
        ≡ digit (suc m % 2) (k % 2) + 2 * bitwise low digit (suc m / 2) (k / 2)
  halve_suc m k = omega (arith, any_more (m - suc m / 2) m (suc m / 2) (k / 2) (omega arith))

bit_or_step : (m k : ℕ) → bit_or m k ≡ max (m % 2) (k % 2) + 2 * bit_or (m / 2) (k / 2)
bit_or_step (suc n) k = simp bit_or-bitwise (halve_suc (λ y. y) max n k)
bit_or_step zero k = simp bit_or-bitwise (omega arith)

differ_digits : (x y : ℕ) → x < 2 → y < 2 → differ x y ≡ (x + y) % 2
differ_digits zero y p q = omega arith
differ_digits (suc zero) zero p q = refl
differ_digits (suc zero) (suc zero) p q = refl
differ_digits (suc zero) (suc (suc y)) p q = absurd (omega arith)
differ_digits (suc (suc x)) y p q = absurd (omega arith)

pub bit_xor_step : (m k : ℕ) → bit_xor m k ≡ (m % 2 + k % 2) % 2 + 2 * bit_xor (m / 2) (k / 2)
bit_xor_step (suc n) k = simp bit_xor-bitwise (
    omega (
      arith,
      halve_suc (λ y. y) differ n k,
      differ_digits (suc n % 2) (k % 2) (omega arith) (omega arith),
    ))
bit_xor_step zero k = simp bit_xor-bitwise (omega arith)

bit_or-zero_fuel : (bound m : ℕ) → m ≤ bound → bit_or m 0 ≡ m
bit_or-zero_fuel bound zero _ = refl
bit_or-zero_fuel zero (suc m) under = absurd (omega arith)
bit_or-zero_fuel (suc bound) (suc m) under =
    omega (arith, bit_or-zero_fuel bound (suc m / 2) (omega arith), bit_or_step (suc m) 0)

pub mul-two-pow-suc : (high width : ℕ) → high * 2 ^ suc width ≡ 2 * (high * 2 ^ width)
mul-two-pow-suc high width = omega (arith, ap (λ (p : ℕ). high * p) (pow-suc 2 width))

-- `(high << width) | low` is a sum where `low` fits `width` bits.
pub bit_or_fields :
    (width high low : ℕ) → low < 2 ^ width → bit_or (high * 2 ^ width) low ≡ high * 2 ^ width + low
bit_or_fields (suc width) high low fits =
    let halves = bit_or_fields width high (low / 2) (omega arith) in
    ground (arith, halves, mul-two-pow-suc high width, bit_or_step (high * 2 ^ suc width) low)
bit_or_fields zero high low fits = ground (arith, bit_or-zero_fuel high high)
