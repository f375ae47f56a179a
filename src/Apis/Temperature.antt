-- ===== src/Apis/Temperature.antt =====
-- apis/sensors/temperature/src/lib.rs, over any raw system calls. The `i32` of a temperature is the
-- number of its 32 bits.
use libtock_rs.Common.{ℕ, some, Option, Result, ok, err, Run, returns, ◌>>=◌, pure}
use libtock_rs.Platform.ErrorCode.{ErrorCode, busy}
use libtock_rs.Platform.RawSyscalls.{RawSyscalls}
use libtock_rs.Platform.CommandReturn.Data.{to_result, success_unit, failure_code}
use libtock_rs.Platform.Syscalls.{Config, Fallible, command, subscribe, unsubscribe}
use libtock_rs.Platform.AsyncCall.{Place}
use libtock_rs.Apis.Blocking.{Blocking, wait_if_ok}

abbrev pub driver_num : ℕ
driver_num = 393216

abbrev pub exists_command : ℕ
exists_command = 0

abbrev pub read_temp_command : ℕ
read_temp_command = 1

-- `impl Upcall for TemperatureListener`, with the closure of `read_temperature_sync`.
abbrev pub listener : {W : Type 0} → Place W (Option ℕ) → ℕ × ℕ × ℕ → Run W (Unit {0})
listener temperature_cell args w = returns (tt, temperature_cell.put (some (args.0)) w)

module _ {W : Type 0} (raw : RawSyscalls W) where
  unfoldable pub exists : Fallible W (Unit {0})
  exists = do
    r ← command raw driver_num exists_command 0 0
    pure (to_result success_unit failure_code r)

  unfoldable pub read_temperature : Fallible W (Unit {0})
  read_temperature = do
    r ← command raw driver_num read_temp_command 0 0
    pure (to_result success_unit failure_code r)

  -- The listener is its function and its address.
  unfoldable pub register_listener : Config W → ℕ → ℕ → Fallible W (Unit {0})
  register_listener cfg fcn payload = subscribe raw cfg driver_num 0 fcn payload

  unfoldable pub unregister_listener : Run W (Unit {0})
  unregister_listener = unsubscribe raw driver_num 0

  unfoldable pub read_temperature_sync :
      Config W → ℕ → ℕ → Place W (Option ℕ) → ℕ → Blocking W (Result ℕ ErrorCode)
  unfolding wait_if_ok register_listener read_temperature
  read_temperature_sync cfg fcn payload temperature_cell fuel =
      wait_if_ok temperature_cell raw (err busy) (λ temp_val. ok temp_val) fuel driver_num
        read_temperature (register_listener cfg fcn payload)
