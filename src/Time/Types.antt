-- ===== src/Time/Types.antt =====
-- `TimePoint`, `Duration` and the conversions of src/time/public_headers/time.hpp. A time point and
-- a duration are `uint64_t` values; a handle is the `uint32_t` id of a callback, 0 if invalid.
use native.Mathlib.Nat.{div-add-mod, mod-lt, mul_comm}
use co_rtos.Base.{ℕ, ◌+◌, ◌-◌, ◌*◌, ◌/◌, ◌%◌, ◌^◌, ◌≤◌, ◌<◌, leb, if◌then◌else◌, ◌≡◌, arith}

abbrev pub u64 : ℕ → ℕ
u64 n = n % 2 ^ 64

abbrev pub u32 : ℕ → ℕ
u32 n = n % 2 ^ 32

-- `TimePoint::max().value`
abbrev pub max_time : ℕ
max_time = 2 ^ 64 - 1

-- `operator+` of a time point and a duration, and of two durations.
unfoldable pub add_duration : ℕ → ℕ → ℕ
add_duration tp d = u64 (tp + d)

unfoldable pub duration_between : ℕ → ℕ → ℕ
duration_between a b = if leb b a then a - b else 0

-- `ceil_div_u64`. Its divisor is 1000 or 1000000, so `b - 1` does not wrap.
unfoldable pub ceil_div_u64 : ℕ → ℕ → ℕ
ceil_div_u64 a b = u64 (a + (b - 1)) / b

-- `ticks` is the least number of ticks of which `per` make up `amount` or more.
pub record RoundsUp (amount per ticks : ℕ) : Type 0 where
  pub enough : amount ≤ ticks * per
  pub least : ticks * per < amount + per

-- For a positive divisor, `ceil_div_u64` is the least quotient whose product reaches the
-- dividend, if the sum of both is at most 2 ^ 64.
ceil_div_u64-RoundsUp : (a b : ℕ) → 0 < b → a + b ≤ 2 ^ 64 → RoundsUp a b (ceil_div_u64 a b)
unfolding ceil_div_u64
ceil_div_u64-RoundsUp a b pos fits =
    let e : u64 (a + (b - 1)) ≡ a + (b - 1) = omega arith in
    let q = div-add-mod (a + (b - 1)) b in
    let m = mod-lt (a + (b - 1)) pos in
    rw e (record {
      enough = omega (arith, q, m, mul_comm b ((a + (b - 1)) / b));
      least = omega (arith, q, m, mul_comm b ((a + (b - 1)) / b));
    })

-- Adding the duration between two points to the earlier one gives the later one.
add_duration-between : (a b : ℕ) → a ≤ max_time → b ≤ a → add_duration b (duration_between a b) ≡ a
unfolding add_duration duration_between
add_duration-between a b fits le = ground arith
