-- ===== src/Apis/Adc.antt =====
-- apis/peripherals/adc/src/lib.rs, over any raw system calls.
use libtock_rs.Common.{ℕ, ◌%◌, ◌^◌, some, Option, Result, ok, err, Run, returns, ◌>>=◌, pure}
use libtock_rs.Platform.ErrorCode.{ErrorCode, busy}
use libtock_rs.Platform.RawSyscalls.{RawSyscalls}
use libtock_rs.Platform.CommandReturn.Data.{to_result, success_unit, success_u32, failure_code}
use libtock_rs.Platform.Syscalls.{Config, Fallible, command, subscribe, unsubscribe}
use libtock_rs.Platform.AsyncCall.{Place}
use libtock_rs.Apis.Blocking.{Blocking, wait_or_fail}

abbrev pub driver_num : ℕ
driver_num = 5

abbrev pub exists_command : ℕ
exists_command = 0

abbrev pub single_sample_command : ℕ
single_sample_command = 1

abbrev pub get_res_bits_command : ℕ
get_res_bits_command = 101

abbrev pub get_voltage_ref_command : ℕ
get_voltage_ref_command = 102

-- `impl Upcall for ADCListener`, with the closure of `read_single_sample_sync`: the sample is the third
-- argument, cast to a `u16`.
abbrev pub listener : {W : Type 0} → Place W (Option ℕ) → ℕ × ℕ × ℕ → Run W (Unit {0})
listener sample args w = returns (tt, sample.put (some (args.2 % 2 ^ 16)) w)

-- `.and(Ok(()))`
abbrev pub and_unit : Result ℕ ErrorCode → Result (Unit {0}) ErrorCode
and_unit (ok _) = ok tt
and_unit (err e) = err e

module _ {W : Type 0} (raw : RawSyscalls W) where
  unfoldable pub exists : Fallible W (Unit {0})
  exists = do
    r ← command raw driver_num exists_command 0 0
    pure (and_unit (to_result success_u32 failure_code r))

  unfoldable pub count : Fallible W ℕ
  count = do
    r ← command raw driver_num exists_command 0 0
    pure (to_result success_u32 failure_code r)

  unfoldable pub read_single_sample : ℕ → Fallible W (Unit {0})
  read_single_sample channel = do
    r ← command raw driver_num single_sample_command channel 0
    pure (to_result success_unit failure_code r)

  -- The listener is its function and its address.
  unfoldable pub register_listener : Config W → ℕ → ℕ → Fallible W (Unit {0})
  register_listener cfg fcn payload = subscribe raw cfg driver_num 0 fcn payload

  unfoldable pub unregister_listener : Run W (Unit {0})
  unregister_listener = unsubscribe raw driver_num 0

  unfoldable pub read_single_sample_sync :
      Config W → ℕ → ℕ → Place W (Option ℕ) → ℕ → ℕ → Blocking W (Result ℕ ErrorCode)
  unfolding wait_or_fail register_listener read_single_sample
  read_single_sample_sync cfg fcn payload sample fuel channel =
      wait_or_fail sample raw (err busy) (λ adc_val. ok adc_val) fuel driver_num
        (read_single_sample channel) (register_listener cfg fcn payload)

  unfoldable pub get_resolution_bits : Fallible W ℕ
  get_resolution_bits = do
    r ← command raw driver_num get_res_bits_command 0 0
    pure (to_result success_u32 failure_code r)

  unfoldable pub get_reference_voltage_mv : Fallible W ℕ
  get_reference_voltage_mv = do
    r ← command raw driver_num get_voltage_ref_command 0 0
    pure (to_result success_u32 failure_code r)
