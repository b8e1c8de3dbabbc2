-- ===== src/Tsutil.antt =====
-- tsutil: times and their milliseconds. A `time.Time` is its zero value, or the nanoseconds since
-- the epoch as an `int64`; times beyond those are not modelled.
pub mod Laws
use keys.Common.{ℕ, ◌==◌, Bool, true, false, if◌then◌else◌}
use keys.Common.Int.{ℤ, pos, negsuc, int_eq, times, quot, minus, saturate, max_int}

pub data Time : Type 0 where
  zero_time : Time
  unix_nano : ℤ → Time

unfoldable pub is_zero : Time → Bool
is_zero zero_time = true
is_zero (unix_nano n) = false

-- `Millis(t)`.
unfoldable pub millis_of : Time → ℤ
millis_of zero_time = pos 0
millis_of (unix_nano n) = quot n 1_000_000

-- `ParseMillis(i)` of an integer: the product wraps round in an `int64`.
unfoldable pub parse_millis : ℤ → Time
parse_millis n = if int_eq n (pos 0) then zero_time else unix_nano (times n 1_000_000)

-- `Days(t)`.
unfoldable pub days : Time → ℤ
days t = quot (quot (quot (quot (millis_of t) 1000) 60) 60) 24

-- `t.Sub(u)` in nanoseconds: the nearest duration that there is. The zero time is more than that
-- apart from all others.
unfoldable pub time_sub : Time → Time → ℤ
time_sub zero_time zero_time = pos 0
time_sub zero_time (unix_nano n) = negsuc max_int
time_sub (unix_nano m) zero_time = pos max_int
time_sub (unix_nano m) (unix_nano n) = saturate (minus m n)
