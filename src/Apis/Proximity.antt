-- ===== src/Apis/Proximity.antt =====
-- apis/sensors/proximity/src/lib.rs, over any raw system calls.
use libtock_rs.Common.{
  ℕ, ◌%◌, ltb, if◌then◌else◌, some, Option, Result, ok, err, Run, ◌>>=◌, ◌>>◌, pure,
}
use libtock_rs.Platform.ErrorCode.{ErrorCode, busy, invalid}
use libtock_rs.Platform.RawSyscalls.{RawSyscalls}
use libtock_rs.Platform.CommandReturn.Data.{to_result, success_unit, failure_code}
use libtock_rs.Platform.Syscalls.{Config, Fallible, command, subscribe, unsubscribe, yield_wait}
use libtock_rs.Platform.Share.{scope}
use libtock_rs.Platform.AsyncCall.{Place}
use libtock_rs.Apis.Blocking.{Blocking, wait_if_ok, if_ok, new_cell, result_of_cell}

abbrev pub driver_num : ℕ
driver_num = 393221

abbrev pub exists_command : ℕ
exists_command = 0

abbrev pub read_command : ℕ
read_command = 1

abbrev pub read_on_int_command : ℕ
read_on_int_command = 2

-- `Some(proximity) => Ok(proximity.0 as u8)`
abbrev pub as_u8 : ℕ → Result ℕ ErrorCode
as_u8 proximity = ok (proximity % 256)

module _ {W : Type 0} (raw : RawSyscalls W) where
  unfoldable pub exists : Fallible W (Unit {0})
  exists = do
    r ← command raw driver_num exists_command 0 0
    pure (to_result success_unit failure_code r)

  -- The listener is its function and its address.
  unfoldable pub register_listener : Config W → ℕ → ℕ → Fallible W (Unit {0})
  register_listener cfg fcn payload = subscribe raw cfg driver_num 0 fcn payload

  unfoldable pub unregister_listener : Run W (Unit {0})
  unregister_listener = unsubscribe raw driver_num 0

  unfoldable pub read : Fallible W (Unit {0})
  read = do
    r ← command raw driver_num read_command 0 0
    pure (to_result success_unit failure_code r)

  unfoldable pub read_on_interrupt : ℕ → ℕ → Fallible W (Unit {0})
  read_on_interrupt lower upper = do
    r ← command raw driver_num read_on_int_command lower upper
    pure (to_result success_unit failure_code r)

  -- `listener` is the cell that the upcall fills. There is one yield and no loop.
  unfoldable pub read_sync : Config W → ℕ → ℕ → Place W (Option ℕ) → Fallible W ℕ
  unfolding scope register_listener read
  read_sync cfg fcn payload listener = do
    new_cell listener
    waited ← scope (unsubscribe raw driver_num 0) (do
      registered ← register_listener cfg fcn payload
      if_ok registered (do started ← read; if_ok started (do yield_wait raw; pure (some tt))))
    result_of_cell listener (err busy) as_u8

  unfoldable pub wait_for_value_between :
      Config W → ℕ → ℕ → Place W (Option ℕ) → ℕ → ℕ → ℕ → Blocking W (Result ℕ ErrorCode)
  unfolding wait_if_ok register_listener read_on_interrupt
  wait_for_value_between cfg fcn payload listener fuel lower upper =
      if ltb upper lower
      then pure (some (err invalid))
      else wait_if_ok listener raw (err busy) as_u8 fuel driver_num (read_on_interrupt lower upper)
          (register_listener cfg fcn payload)
