-- ===== src/Apis/AmbientLight.antt =====
-- apis/sensors/ambient_light/src/lib.rs, over any raw system calls.
use libtock_rs.Common.{ℕ, some, Option, Result, ok, err, Run, returns, ◌>>=◌, pure}
use libtock_rs.Platform.ErrorCode.{ErrorCode, busy}
use libtock_rs.Platform.RawSyscalls.{RawSyscalls}
use libtock_rs.Platform.CommandReturn.Data.{to_result, success_unit, failure_code}
use libtock_rs.Platform.Syscalls.{Config, Fallible, command, subscribe, unsubscribe}
use libtock_rs.Platform.AsyncCall.{Place}
use libtock_rs.Apis.Blocking.{Blocking, wait_or_fail}

abbrev pub driver_num : ℕ
driver_num = 393218

abbrev pub exists_command : ℕ
exists_command = 0

abbrev pub read_intensity_command : ℕ
read_intensity_command = 1

-- `impl Upcall for IntensityListener`, with the closure of `read_intensity_sync`.
abbrev pub listener : {W : Type 0} → Place W (Option ℕ) → ℕ × ℕ × ℕ → Run W (Unit {0})
listener intensity_cell args w = returns (tt, intensity_cell.put (some (args.0)) w)

module _ {W : Type 0} (raw : RawSyscalls W) where
  unfoldable pub exists : Fallible W (Unit {0})
  exists = do
    r ← command raw driver_num exists_command 0 0
    pure (to_result success_unit failure_code r)

  unfoldable pub read_intensity : Fallible W (Unit {0})
  read_intensity = do
    r ← command raw driver_num read_intensity_command 0 0
    pure (to_result success_unit failure_code r)

  -- The listener is its function and its address.
  unfoldable pub register_listener : Config W → ℕ → ℕ → Fallible W (Unit {0})
  register_listener cfg fcn payload = subscribe raw cfg driver_num 0 fcn payload

  unfoldable pub unregister_listener : Run W (Unit {0})
  unregister_listener = unsubscribe raw driver_num 0

  unfoldable pub read_intensity_sync :
      Config W → ℕ → ℕ → Place W (Option ℕ) → ℕ → Blocking W (Result ℕ ErrorCode)
  unfolding wait_or_fail register_listener read_intensity
  read_intensity_sync cfg fcn payload intensity_cell fuel =
      wait_or_fail intensity_cell raw (err busy) (λ intensity_val. ok intensity_val) fuel driver_num
        read_intensity (register_listener cfg fcn payload)
