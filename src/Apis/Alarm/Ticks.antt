-- ===== src/Apis/Alarm/Ticks.antt =====
-- The conversions of time of apis/peripherals/alarm/src/lib.rs.
use libtock_rs.Common.{
  ℕ, ◌+◌, ◌*◌, ◌/◌, ◌%◌, refl, ap, subst, ◌<◌, ◌≤◌, ◌^◌, ◌≡◌, ◌∙◌, ltb, lt→ltb, if◌then◌else◌, ok,
  returns, panics, arith, bind-returns, ◌>>=◌, pure,
}
use native.Mathlib.Nat.{div-add-mod', lt-div-mul-add, div-mul-le_self, mod-eq_of_lt}
use libtock_rs.Platform.ReturnVariant
use libtock_rs.Platform.CommandReturn.Data.{to_result, success_u32, failure_code}
use libtock_rs.Platform.Syscalls.{command, command_result}
use libtock_rs.Platform.RawSyscalls.{RawSyscalls}
use libtock_rs.Apis.Alarm.{
  div_ceil, to_ticks, get_ticks, get_frequency, get_milliseconds, with_ticks, with_frequency,
}

-- The quotient rounded up.
div_ceil_lem : (a : ℕ) → (a ≤ div_ceil a 1000 * 1000) × (div_ceil a 1000 * 1000 < a + 1000)
unfolding div_ceil
div_ceil_lem a = (ground arith, ground arith)

-- Where the product fits in 32 bits, the ticks are the time rounded up: they last at least as long as
-- the milliseconds, and one tick less would not.
pub to_ticks_rounds :
    (milliseconds freq : ℕ)
    → milliseconds * freq < 2 ^ 32
    → (milliseconds * freq ≤ to_ticks milliseconds freq * 1000)
      × (to_ticks milliseconds freq * 1000 < milliseconds * freq + 1000)
unfolding to_ticks
to_ticks_rounds milliseconds freq h =
    rw (lt→ltb (milliseconds * freq) (2 ^ 32) h) (div_ceil_lem (milliseconds * freq))

-- Where the product is more than 4294968000, the ticks last less long than the milliseconds: they are
-- 4294968, whatever the time is.
pub to_ticks_short :
    (milliseconds freq : ℕ)
    → 4294968000 < milliseconds * freq
    → (to_ticks milliseconds freq ≡ 4294968)
      × (to_ticks milliseconds freq * 1000 < milliseconds * freq)
unfolding to_ticks div_ceil
to_ticks_short milliseconds freq h = (ground arith, ground arith)

-- A command of the alarm driver that the kernel answers with a word.
answered :
    {W : Type 0} (raw : RawSyscalls W) (w v : W) (c n a b : ℕ)
    → raw.syscall4 2 0 c 0 0 w ≡ returns ((ReturnVariant.success_u32, n, a, b), v)
    → n < 2 ^ 32
    → (command raw 0 c 0 0 >>= λ r. pure (to_result success_u32 failure_code r)) w
      ≡ returns (ok n, v)
unfolding command command_result to_result
answered raw w v c n a b answers h =
    bind-returns (command raw 0 c 0 0) (λ r. pure (to_result success_u32 failure_code r))
      (bind-returns (raw.syscall4 2 0 c 0 0) (λ r. pure (command_result r)) answers)
    ∙ ap (λ x. returns (ok x, v)) (mod-eq_of_lt h)

ticks_answered :
    {W : Type 0} (raw : RawSyscalls W) (w v : W) (ticks a b : ℕ)
    → raw.syscall4 2 0 2 0 0 w ≡ returns ((ReturnVariant.success_u32, ticks, a, b), v)
    → ticks < 2 ^ 32
    → get_ticks raw w ≡ returns (ok ticks, v)
unfolding get_ticks
ticks_answered raw w v ticks a b answers h = answered raw w v 2 ticks a b answers h

frequency_answered :
    {W : Type 0} (raw : RawSyscalls W) (w v : W) (freq a b : ℕ)
    → raw.syscall4 2 0 1 0 0 w ≡ returns ((ReturnVariant.success_u32, freq, a, b), v)
    → freq < 2 ^ 32
    → get_frequency raw w ≡ returns (ok freq, v)
unfolding get_frequency
frequency_answered raw w v freq a b answers h = answered raw w v 1 freq a b answers h

get_milliseconds_lem :
    {W : Type 0} (raw : RawSyscalls W) (w v u : W) (ticks freq : ℕ)
    → get_ticks raw w ≡ returns (ok ticks, v)
    → get_frequency raw v ≡ returns (ok freq, u)
    → get_milliseconds raw w
      ≡ (if ltb freq 1000 then panics else returns (ok (ticks / (freq / 1000)), u))
unfolding get_milliseconds
get_milliseconds_lem raw w v u ticks freq e e' =
    bind-returns (get_ticks raw) (with_ticks raw) e
    ∙ bind-returns (get_frequency raw) (with_frequency raw ticks) e'
    ∙ ground arith

remainder_bounds :
    (ticks q k r : ℕ)
    → ticks < q * k + k
    → q * k ≤ ticks
    → (ticks * 1000 + (q + 1) * r < (q + 1) * (k * 1000 + r))
      × (q * (k * 1000 + r) ≤ ticks * 1000 + q * r)
remainder_bounds ticks q k r above below = (grind arith, grind arith)

-- A division by the whole kilohertz of a frequency, against the exact quotient.
kilohertz_lem :
    (ticks freq : ℕ)
    → 1000 ≤ freq
    → (ticks * 1000 + (ticks / (freq / 1000) + 1) * (freq % 1000)
        < (ticks / (freq / 1000) + 1) * freq)
      × (ticks / (freq / 1000) * freq ≤ ticks * 1000 + ticks / (freq / 1000) * (freq % 1000))
kilohertz_lem ticks freq h =
    let k = freq / 1000 in
    let q = ticks / k in
    subst
      (λ f.
        (ticks * 1000 + (q + 1) * (freq % 1000) < (q + 1) * f)
        × (q * f ≤ ticks * 1000 + q * (freq % 1000)))
      (div-add-mod' freq 1000)
      (remainder_bounds ticks q k (freq % 1000)
        (lt-div-mul-add {a = ticks} {b = k} (omega (arith, h))) (div-mul-le_self ticks k))

-- `get_milliseconds` on a kernel whose alarm driver answers the command for its time with `ticks` and
-- that for its frequency with `freq`, which fit in 32 bits. Below 1000 Hz it panics. Else it returns a
-- number of milliseconds that, times `freq`, is no more than the ticks times 1000 and as many times the
-- remainder of `freq` by 1000, and one millisecond more would be: where 1000 divides `freq` it is
-- the exact time rounded down, and elsewhere it may be above the exact time by that remainder's share.
pub get_milliseconds_bounds :
    {W : Type 0} (raw : RawSyscalls W) (w v u : W) (ticks freq a b c d : ℕ)
    → raw.syscall4 2 0 2 0 0 w ≡ returns ((ReturnVariant.success_u32, ticks, a, b), v)
    → raw.syscall4 2 0 1 0 0 v ≡ returns ((ReturnVariant.success_u32, freq, c, d), u)
    → ticks < 2 ^ 32
    → freq < 2 ^ 32
    → (freq < 1000 → get_milliseconds raw w ≡ panics)
      × (1000 ≤ freq
          → (milliseconds : ℕ) × (get_milliseconds raw w ≡ returns (ok milliseconds, u))
            × (ticks * 1000 + (milliseconds + 1) * (freq % 1000) < (milliseconds + 1) * freq)
            × (milliseconds * freq ≤ ticks * 1000 + milliseconds * (freq % 1000)))
get_milliseconds_bounds raw w v u ticks freq a b c d answers answers' ht hf =
    let eq =
      get_milliseconds_lem raw w v u ticks freq (ticks_answered raw w v ticks a b answers ht)
        (frequency_answered raw v u freq c d answers' hf) in
    (
      λ slow. eq ∙ rw (lt→ltb freq 1000 slow) refl,
      λ fast. (
        ticks / (freq / 1000),
        eq ∙ ground arith,
        (kilohertz_lem ticks freq fast).0,
        (kilohertz_lem ticks freq fast).1,
      ),
    )
