-- ===== src/Http/Auth/Window.antt =====
-- http/auth.go: which timestamps are near enough to the time of the check.
use keys.Common.{ℕ, ◌+◌, ◌-◌, ◌*◌, ◌≤◌, false, ltb, ◌≡◌, refl, arith, Bool-cases, inl, inr}
use keys.Common.Int.{ℤ, pos, negsuc, int_ltb, int_eq, minus, saturate, times, wrap, max_int}
use keys.Tsutil.{Time, zero_time, unix_nano, parse_millis, time_sub}
use keys.Http.Auth.{negate, half_hour, is_too_far}

wrap-pos : (z : ℤ) (m : ℕ) → wrap z ≡ pos m → m ≤ max_int
unfolding wrap
wrap-pos (pos n) m h = ground arith
wrap-pos (negsuc n) m h = ground arith

-- The time of a number of milliseconds that is not 0 fits 64 bits.
parse_millis-pos : (i : ℤ) (m : ℕ) → parse_millis i ≡ unix_nano (pos m) → m ≤ max_int
unfolding parse_millis times
parse_millis-pos (pos n) m h = elim (Bool-cases (int_eq (pos n) (pos 0))) [
  | inl e ↦ ground (arith, e)
  | inr e ↦ wrap-pos (pos (n * 1_000_000)) m (ground (arith, e))
]
parse_millis-pos (negsuc n) m h = wrap-pos (negsuc ((n + 1) * 1_000_000 - 1)) m (ground arith)

-- A duration between minus half an hour and half an hour.
abbrev pub IsNear : ℤ → Type 0
IsNear td =
    (int_ltb half_hour td ≡ false) × (int_ltb td (negsuc (30 * 60 * 1_000_000_000 - 1)) ≡ false)

is_too_far-IsNear_of :
    (n : ℕ) (tm : Time)
    → ((m : ℕ) → tm ≡ unix_nano (pos m) → m ≤ max_int)
    → is_too_far (unix_nano (pos n)) tm ≡ false
    → IsNear (time_sub (unix_nano (pos n)) tm)
unfolding is_too_far time_sub minus saturate negate
is_too_far-IsNear_of n zero_time fits h = ground arith
is_too_far-IsNear_of n (unix_nano (negsuc m)) fits h = ground arith
is_too_far-IsNear_of n (unix_nano (pos m)) fits h =
    let small = fits m refl in
    elim (Bool-cases (ltb n m)) [
      | inl before ↦ ground (arith, before, small)
      | inr later ↦ ground (arith, later)
    ]

pub is_too_far-IsNear :
    (n : ℕ) (i : ℤ)
    → is_too_far (unix_nano (pos n)) (parse_millis i) ≡ false
    → IsNear (time_sub (unix_nano (pos n)) (parse_millis i))
is_too_far-IsNear n i h = is_too_far-IsNear_of n (parse_millis i) (parse_millis-pos i) h

-- At the zero time, no timestamp is too far: the duration's negation is itself.
is_too_far_at_zero : (t : ℤ) → is_too_far zero_time (unix_nano t) ≡ false
unfolding is_too_far time_sub negate
is_too_far_at_zero t = refl
