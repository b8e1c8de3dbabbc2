-- ===== src/Http/Auth/Digits.antt =====
-- http/auth.go: the decimal digits of a timestamp are read back.
use keys.Common.{
  ℕ, zero, suc, ◌+◌, ◌/◌, ◌%◌, ◌<◌, ◌≤◌, [], ◌∷◌, none, some, Str, ltb, ◌≡◌, refl, arith, ap, sym,
  ◌∙◌, Bool-cases, inl, inr,
}
use keys.Common.Int.{pos, itoa, digits, max_int}
use keys.Http.Mem.{parse_digits, parse_int}

-- Reading the digits of a number reads the number, whatever stands behind them.
parse_digits-digits :
    (fuel n : ℕ) (out : Str)
    → n < fuel
    → parse_digits none (digits fuel n out) ≡ parse_digits (some n) out
unfolding digits parse_digits
parse_digits-digits zero n out h = absurd (omega arith)
parse_digits-digits (suc fuel) n out h = elim (Bool-cases (ltb n 10)) [
  | inl small ↦ ground (arith, small)
  | inr large ↦
      rw large
        (parse_digits-digits fuel (n / 10) ((b'0' + n % 10) ∷ out) (ground arith) ∙ ground arith)
]

-- The first character is a digit, and so no sign.
digits_head :
    (fuel n : ℕ) (out : Str)
    → n < fuel
    → (c : ℕ) × (s : Str) × (digits fuel n out ≡ c ∷ s) × (b'0' ≤ c)
unfolding digits
digits_head zero n out h = absurd (omega arith)
digits_head (suc fuel) n out h = elim (Bool-cases (ltb n 10)) [
  | inl small ↦ (b'0' + n, out, rw small refl, omega arith)
  | inr large ↦
      (let (c, s, e, l) = digits_head fuel (n / 10) ((b'0' + n % 10) ∷ out) (ground arith) in
        (c, s, rw large e, l))
]

-- `ParseInt` of the digits of a number of 64 bits gives the number.
pub parse_int-itoa : (n : ℕ) → n ≤ max_int → parse_int (itoa (pos n)) ≡ some (pos n)
unfolding parse_int itoa parse_digits
parse_int-itoa n h =
    let (c, s, e, l) = digits_head (n + 1) n [] (omega arith) in
    let read : parse_digits none (c ∷ s) ≡ some n =
      ap (parse_digits none) (sym e) ∙ parse_digits-digits (n + 1) n [] (omega arith) in
    rw e (ground (arith, read))
