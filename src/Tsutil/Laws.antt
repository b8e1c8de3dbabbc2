-- ===== src/Tsutil/Laws.antt =====
-- tsutil: milliseconds of a time and back.
use keys.Common.{◌+◌, ◌*◌, ◌≤◌, ◌<◌, ◌^◌, ◌≡◌, arith}
use keys.Common.Int.{ℤ, pos, negsuc, times, quot}
use keys.Tsutil.{millis_of, parse_millis}

-- The milliseconds whose nanoseconds fit an `int64`.
abbrev pub FitsNanos : ℤ → Type 0
FitsNanos (pos n) = n * 1_000_000 < 2 ^ 63
FitsNanos (negsuc n) = (n + 1) * 1_000_000 ≤ 2 ^ 63

-- `Millis` of the time of `ParseMillis` gives the milliseconds back, if their nanoseconds fit 64
-- bits.
pub millis_of-parse_millis : (n : ℤ) → FitsNanos n → millis_of (parse_millis n) ≡ n
unfolding millis_of parse_millis times quot
millis_of-parse_millis (pos n) h = ground arith
millis_of-parse_millis (negsuc n) h = ground arith
