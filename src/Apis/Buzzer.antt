-- ===== src/Apis/Buzzer.antt =====
-- apis/interface/buzzer/src/lib.rs, over any raw system calls, but for the names of the notes. A
-- `Duration` is the number of its milliseconds.
use libtock_rs.Common.{ℕ, ◌^◌, ◌%◌, Option, some, Result, ok, err, Run, returns, ◌>>=◌, pure}
use libtock_rs.Platform.ErrorCode.{ErrorCode, fail}
use libtock_rs.Platform.RawSyscalls.{RawSyscalls}
use libtock_rs.Platform.CommandReturn.Data.{to_result, success_unit, failure_code}
use libtock_rs.Platform.Syscalls.{Config, Fallible, command, subscribe, unsubscribe}
use libtock_rs.Platform.AsyncCall.{Place}
use libtock_rs.Apis.Blocking.{Blocking, wait_or_fail}

abbrev pub driver_num : ℕ
driver_num = 589824

abbrev pub exists_command : ℕ
exists_command = 0

abbrev pub buzzer_on : ℕ
buzzer_on = 1

-- `impl Upcall for BuzzerListener`, with the closure of `tone_sync`.
abbrev pub listener : {W : Type 0} → Place W (Option ℕ) → ℕ × ℕ × ℕ → Run W (Unit {0})
listener buzzer_cell args w = returns (tt, buzzer_cell.put (some (args.0)) w)

module _ {W : Type 0} (raw : RawSyscalls W) where
  unfoldable pub exists : Fallible W (Unit {0})
  exists = do
    r ← command raw driver_num exists_command 0 0
    pure (to_result success_unit failure_code r)

  unfoldable pub tone : ℕ → ℕ → Fallible W (Unit {0})
  tone freq duration = do
    r ← command raw driver_num buzzer_on freq (duration % 2 ^ 32)
    pure (to_result success_unit failure_code r)

  -- The listener is its function and its address.
  unfoldable pub register_listener : Config W → ℕ → ℕ → Fallible W (Unit {0})
  register_listener cfg fcn payload = subscribe raw cfg driver_num 0 fcn payload

  unfoldable pub unregister_listener : Run W (Unit {0})
  unregister_listener = unsubscribe raw driver_num 0

  unfoldable pub tone_sync :
      Config W → ℕ → ℕ → Place W (Option ℕ) → ℕ → ℕ → ℕ → Blocking W (Result (Unit {0}) ErrorCode)
  unfolding wait_or_fail register_listener tone
  tone_sync cfg fcn payload buzzer_cell fuel freq duration =
      wait_or_fail buzzer_cell raw (err fail) (λ _. ok tt) fuel driver_num (tone freq duration)
        (register_listener cfg fcn payload)
