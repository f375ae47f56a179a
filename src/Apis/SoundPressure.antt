-- ===== src/Apis/SoundPressure.antt =====
-- apis/sensors/sound_pressure/src/lib.rs, over any raw system calls.
use libtock_rs.Common.{
  ℕ, ◌%◌, leb, if◌then◌else◌, some, Option, Result, ok, err, Run, returns, ◌>>=◌, pure,
}
use libtock_rs.Platform.ErrorCode.{ErrorCode, fail, invalid}
use libtock_rs.Platform.RawSyscalls.{RawSyscalls}
use libtock_rs.Platform.CommandReturn.Data.{to_result, success_unit, failure_code}
use libtock_rs.Platform.Syscalls.{Config, Fallible, command, subscribe, unsubscribe}
use libtock_rs.Platform.AsyncCall.{Place}
use libtock_rs.Apis.Blocking.{Blocking, wait_or_fail}

abbrev pub driver_num : ℕ
driver_num = 393222

abbrev pub exists_command : ℕ
exists_command = 0

abbrev pub read_pressure_command : ℕ
read_pressure_command = 1

-- `impl Upcall for SoundPressureListener`, with the closure of `read_sync`.
abbrev pub listener : {W : Type 0} → Place W (Option ℕ) → ℕ × ℕ × ℕ → Run W (Unit {0})
listener pressure_cell args w = returns (tt, pressure_cell.put (some (args.0)) w)

-- The arm `Some(pressure_val)` of `read_sync`: the range test, and the cast to a `u8`.
unfoldable pub checked : ℕ → Result ℕ ErrorCode
checked pressure_val = if leb pressure_val 256 then ok (pressure_val % 256) else err invalid

module _ {W : Type 0} (raw : RawSyscalls W) where
  unfoldable pub exists : Fallible W (Unit {0})
  exists = do
    r ← command raw driver_num exists_command 0 0
    pure (to_result success_unit failure_code r)

  unfoldable pub read : Fallible W (Unit {0})
  read = do
    r ← command raw driver_num read_pressure_command 0 0
    pure (to_result success_unit failure_code r)

  -- The listener is its function and its address.
  unfoldable pub register_listener : Config W → ℕ → ℕ → Fallible W (Unit {0})
  register_listener cfg fcn payload = subscribe raw cfg driver_num 0 fcn payload

  unfoldable pub unregister_listener : Run W (Unit {0})
  unregister_listener = unsubscribe raw driver_num 0

  unfoldable pub enable : Fallible W (Unit {0})
  enable = do r ← command raw driver_num 2 0 0; pure (to_result success_unit failure_code r)

  unfoldable pub disable : Fallible W (Unit {0})
  disable = do r ← command raw driver_num 3 0 0; pure (to_result success_unit failure_code r)

  unfoldable pub read_sync :
      Config W → ℕ → ℕ → Place W (Option ℕ) → ℕ → Blocking W (Result ℕ ErrorCode)
  unfolding wait_or_fail register_listener read checked
  read_sync cfg fcn payload pressure_cell fuel =
      wait_or_fail pressure_cell raw (err fail) checked fuel driver_num read
        (register_listener cfg fcn payload)
