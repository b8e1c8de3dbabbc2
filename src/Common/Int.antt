-- ===== src/Common/Int.antt =====
-- Go's `int`, a signed number of 64 bits, as an integer over the native numbers. The library's ℤ
-- stands on another ℕ.
use Prim.Native.Nat.{◌*◌, ℕ, zero, suc, ◌+◌, ◌-◌, ◌/◌, ◌%◌, ◌^◌}
use mathlib.Core.Path.{◌≡◌}
use mathlib.Core.Logic.{◌↔◌}
use mathlib.Core.Bool.{Bool, true, false}
use mathlib.Core.List.{[], ◌∷◌}
use native.Mathlib.Omega.{arith}
use keys.Common.Tests.{◌==◌, ltb, if◌then◌else◌}
use keys.Common.Text.{Str}

-- `negsuc n` is -(n + 1).
pub data ℤ : Type 0 where
  pos : ℕ → ℤ
  negsuc : ℕ → ℤ

-- `math.MaxInt64`.
abbrev pub max_int : ℕ
max_int = 2 ^ 63 - 1

-- `i + 1`, which wraps round at the largest value.
unfoldable pub incr : ℤ → ℤ
incr (pos n) = if n == max_int then negsuc max_int else pos (n + 1)
incr (negsuc zero) = pos 0
incr (negsuc (suc n)) = negsuc n

-- `a == b`.
abbrev pub int_eq : ℤ → ℤ → Bool
int_eq (pos m) (pos n) = m == n
int_eq (pos m) (negsuc n) = false
int_eq (negsuc m) (pos n) = false
int_eq (negsuc m) (negsuc n) = m == n

-- `a < b`.
abbrev pub int_ltb : ℤ → ℤ → Bool
int_ltb (pos m) (pos n) = ltb m n
int_ltb (pos m) (negsuc n) = false
int_ltb (negsuc m) (pos n) = true
int_ltb (negsuc m) (negsuc n) = ltb n m

pub int_eq_iff : (a b : ℤ) → (int_eq a b ≡ true) ↔ (a ≡ b)
int_eq_iff (pos m) (pos n) = ground arith
int_eq_iff (pos m) (negsuc n) = ground arith
int_eq_iff (negsuc m) (pos n) = ground arith
int_eq_iff (negsuc m) (negsuc n) = ground arith

-- The decimal digits of `n`, for at most `fuel` of them, in front of `out`.
unfoldable pub digits : ℕ → ℕ → Str → Str
digits zero n out = out
digits (suc fuel) n out =
    let rest = digits fuel (n / 10) ((b'0' + n % 10) ∷ out) in
    if ltb n 10 then (b'0' + n) ∷ out else rest

-- `strconv.Itoa`: a number has at most as many digits as `n + 1`.
unfoldable pub itoa : ℤ → Str
unfolding digits
itoa (pos n) = digits (n + 1) n []
itoa (negsuc n) = b'-' ∷ digits (n + 2) (n + 1) []

-- The number as 64 bits hold it.
unfoldable pub wrap : ℤ → ℤ
wrap (pos n) = let r = n % 2 ^ 64 in if ltb r (2 ^ 63) then pos r else negsuc (2 ^ 64 - 1 - r)
wrap (negsuc n) = let r = n % 2 ^ 64 in if ltb r (2 ^ 63) then negsuc r else pos (2 ^ 64 - 1 - r)

-- `a * k` for a positive constant `k`.
unfoldable pub times : ℤ → ℕ → ℤ
unfolding wrap
times (pos n) k = wrap (pos (n * k))
times (negsuc n) k = wrap (negsuc ((n + 1) * k - 1))

-- `a / k` for a positive constant `k`, which Go rounds towards 0.
unfoldable pub quot : ℤ → ℕ → ℤ
quot (pos n) k = pos (n / k)
quot (negsuc n) k = let q = (n + 1) / k in if q == 0 then pos 0 else negsuc (q - 1)

-- `a - b`, not wrapped.
unfoldable pub minus : ℤ → ℤ → ℤ
minus (pos m) (pos n) = if ltb m n then negsuc (n - m - 1) else pos (m - n)
minus (pos m) (negsuc n) = pos (m + n + 1)
minus (negsuc m) (pos n) = negsuc (m + n)
minus (negsuc m) (negsuc n) = if ltb n m then negsuc (m - n - 1) else pos (n - m)

-- The nearest number of 64 bits.
unfoldable pub saturate : ℤ → ℤ
saturate (pos n) = if ltb max_int n then pos max_int else pos n
saturate (negsuc n) = if ltb max_int n then negsuc max_int else negsuc n
