-- ===== src/Apis/Leds.antt =====
-- apis/interface/leds/src/lib.rs, over any raw system calls.
use libtock_rs.Common.{ℕ, ◌>>=◌, pure}
use libtock_rs.Platform.RawSyscalls.{RawSyscalls}
use libtock_rs.Platform.CommandReturn.Data.{to_result, success_unit, success_u32, failure_code}
use libtock_rs.Platform.Syscalls.{Fallible, command}

abbrev pub driver_num : ℕ
driver_num = 2

-- The command IDs.
abbrev pub leds_count : ℕ
leds_count = 0

abbrev pub led_on : ℕ
led_on = 1

abbrev pub led_off : ℕ
led_off = 2

abbrev pub led_toggle : ℕ
led_toggle = 3

module _ {W : Type 0} (raw : RawSyscalls W) where
  unfoldable pub count : Fallible W ℕ
  unfolding to_result
  count = do r ← command raw driver_num leds_count 0 0; pure (to_result success_u32 failure_code r)

  unfoldable pub on : ℕ → Fallible W (Unit {0})
  unfolding to_result
  on led = do r ← command raw driver_num led_on led 0; pure (to_result success_unit failure_code r)

  unfoldable pub off : ℕ → Fallible W (Unit {0})
  unfolding to_result
  off led = do
    r ← command raw driver_num led_off led 0
    pure (to_result success_unit failure_code r)

  unfoldable pub toggle : ℕ → Fallible W (Unit {0})
  unfolding to_result
  toggle led = do
    r ← command raw driver_num led_toggle led 0
    pure (to_result success_unit failure_code r)
