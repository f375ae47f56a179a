-- ===== src/Apis/Console.antt =====
-- apis/interface/console/src/lib.rs, over any raw system calls. A slice is its address and its length,
-- the upcall of a cell its function and its address.
use libtock_rs.Common.{
  ℕ, ◌^◌, ◌%◌, ◌==◌, if◌then◌else◌, Bool, Option, none, some, List, length, take, min, Result, ok,
  err, unwrap_or, Run, returns, ◌>>=◌, ◌>>◌, pure,
}
use libtock_rs.Platform.ErrorCode.{ErrorCode, fail, try_from}
use libtock_rs.Platform.RawSyscalls.{RawSyscalls}
use libtock_rs.Platform.CommandReturn.{is_success}
use libtock_rs.Platform.CommandReturn.Data.{to_result, success_unit, failure_code}
use libtock_rs.Platform.Syscalls.{
  Config, Fallible, command, subscribe, unsubscribe, allow_ro, allow_rw, unallow_ro, unallow_rw,
}
use libtock_rs.Platform.Share.{scope}
use libtock_rs.Platform.AsyncCall.{Place, Poll, CallState}
use libtock_rs.Platform.AsyncCall.BufferedCall.{BufferedOperation}
use libtock_rs.Platform.AsyncCall.BufferedCall
use libtock_rs.Apis.Blocking.{Blocking, try_then, new_cell, yield_until_called}

abbrev pub driver_num : ℕ
driver_num = 1

abbrev pub exists_command : ℕ
exists_command = 0

abbrev pub write_command : ℕ
write_command = 1

abbrev pub read_command : ℕ
read_command = 2

abbrev pub abort_command : ℕ
abort_command = 3

abbrev pub subscribe_write : ℕ
subscribe_write = 1

abbrev pub subscribe_read : ℕ
subscribe_read = 2

abbrev pub allow_ro_write : ℕ
allow_ro_write = 1

abbrev pub allow_rw_read : ℕ
allow_rw_read = 1

-- `fmt::Error`
pub data FmtError : Type 0 where
  fmt_error : FmtError

abbrev pub to_fmt : Result (Unit {0}) ErrorCode → Result (Unit {0}) FmtError
to_fmt (ok u) = ok u
to_fmt (err _) = err fmt_error

-- The upcall of `write`: `called` has the first argument.
abbrev pub write_upcall : {W : Type 0} → Place W (Option ℕ) → ℕ × ℕ × ℕ → Run W (Unit {0})
write_upcall called args w = returns (tt, called.put (some (args.0)) w)

-- The upcall of `read`: `called` has the first two.
abbrev pub read_upcall : {W : Type 0} → Place W (Option (ℕ × ℕ)) → ℕ × ℕ × ℕ → Run W (Unit {0})
read_upcall called (status, count, _) w = returns (tt, called.put (some (status, count)) w)

-- `bytes_received` and the result of the closure of `read`.
abbrev pub Received : Type 0
Received = ℕ × Result (Unit {0}) ErrorCode

-- The match on the status in `read`.
abbrev pub status_result : ℕ → Result (Unit {0}) ErrorCode
status_result status = if status == 0 then ok tt else err (unwrap_or (try_from status) fail)

abbrev pub written : {W : Type 0} → Option ℕ → Blocking W (Result (Unit {0}) ErrorCode)
written none = pure none
written (some _) = pure (some (ok tt))

abbrev pub received : {W : Type 0} → Option (ℕ × ℕ) → Blocking W Received
received none = pure none
received (some (status, bytes_pushed_count)) =
    pure (some (bytes_pushed_count, status_result status))

-- `?` in the closure of `read`, where `bytes_received` is still zero.
abbrev pub try_read :
    {W : Type 0} → Result (Unit {0}) ErrorCode → Blocking W Received → Blocking W Received
try_read (err e) m = pure (some (0, err e))
try_read (ok _) m = m

-- The bytes of a read: `buffer` has the length `N`.
pub record ReadOutput : Type 0 where
  pub buffer : List ℕ
  pub count : ℕ

-- `ReadOutput::bytes`
abbrev pub bytes : ReadOutput → List ℕ
bytes o = take o.count o.buffer

-- `ReadOp::complete`, where the buffer has the length `N`.
unfoldable pub complete : ℕ × ℕ × ℕ → List ℕ → Result ReadOutput ErrorCode
complete (status, count, _) buffer =
    if status == 0
    then ok (record { buffer = buffer; count = min count (length buffer) })
    else err (unwrap_or (try_from status) fail)

module _ {W : Type 0} (raw : RawSyscalls W) where
  unfoldable pub exists : Run W Bool
  unfolding is_success
  exists = do r ← command raw driver_num exists_command 0 0; pure (is_success r)

  abbrev pub command_unit : ℕ → ℕ → Fallible W (Unit {0})
  command_unit c len = do
    r ← command raw driver_num c (len % 2 ^ 32) 0
    pure (to_result success_unit failure_code r)

  module _ (cfg : Config W) (fcn payload address len fuel : ℕ) where
    module _ (called : Place W (Option ℕ)) where
      -- The steps of the closure of `write` behind each `?`.
      abbrev pub await_write :
          Result (Unit {0}) ErrorCode → Blocking W (Result (Unit {0}) ErrorCode)
      await_write started = try_then started (yield_until_called called raw fuel >>= written)

      abbrev pub start_write :
          Result (Unit {0}) ErrorCode → Blocking W (Result (Unit {0}) ErrorCode)
      start_write subscribed = try_then subscribed (command_unit write_command len >>= await_write)

      abbrev pub subscribe_to_write :
          Result (Unit {0}) ErrorCode → Blocking W (Result (Unit {0}) ErrorCode)
      subscribe_to_write allowed =
          try_then allowed
            (subscribe raw cfg driver_num subscribe_write fcn payload >>= start_write)

      abbrev pub release_write : Run W (Unit {0})
      release_write = do
        unallow_ro raw driver_num allow_ro_write
        unsubscribe raw driver_num subscribe_write

      unfoldable pub write : Blocking W (Result (Unit {0}) ErrorCode)
      unfolding scope yield_until_called
      write = do
        new_cell called
        scope release_write
            (allow_ro raw cfg driver_num allow_ro_write address len >>= subscribe_to_write)

      -- `ConsoleWriter::write_str`
      unfoldable pub write_str : Blocking W (Result (Unit {0}) FmtError)
      unfolding write
      write_str = do r ← write; pure (elim r [ none ↦ none | some x ↦ some (to_fmt x) ])

    module _ (called : Place W (Option (ℕ × ℕ))) where
      -- The steps of the closure of `read` behind each `?`.
      abbrev pub await_read : Result (Unit {0}) ErrorCode → Blocking W Received
      await_read started = try_read started (yield_until_called called raw fuel >>= received)

      abbrev pub start_read : Result (Unit {0}) ErrorCode → Blocking W Received
      start_read subscribed = try_read subscribed (command_unit read_command len >>= await_read)

      abbrev pub subscribe_to_read : Result (Unit {0}) ErrorCode → Blocking W Received
      subscribe_to_read allowed =
          try_read allowed (subscribe raw cfg driver_num subscribe_read fcn payload >>= start_read)

      abbrev pub release_read : Run W (Unit {0})
      release_read = do
        unallow_rw raw driver_num allow_rw_read
        unsubscribe raw driver_num subscribe_read

      unfoldable pub read : Blocking W Received
      unfolding scope yield_until_called
      read = do
        new_cell called
        scope release_read
            (allow_rw raw cfg driver_num allow_rw_read address len >>= subscribe_to_read)

  -- `impl BufferedOperation for ReadOp`
  unfoldable pub read_op : BufferedOperation W ReadOutput
  unfolding complete
  read_op = record {
    start = λ len. command_unit read_command len;
    cancel = command raw driver_num abort_command 0 0 >>= λ _. pure tt;
    complete = λ args buffer. pure (complete args buffer);
  }

  -- The future of `read_async`: its `poll`, for a buffer of the length `len`.
  unfoldable pub poll_read :
      Config W
      → (fcn payload address len : ℕ) → Place W CallState
      → (W → List ℕ)
      → ℕ
      → Run W (Poll (Result ReadOutput ErrorCode))
  unfolding BufferedCall.poll read_op
  poll_read cfg fcn payload address len place buffer =
      BufferedCall.poll raw cfg driver_num subscribe_read allow_rw_read fcn payload address len
        place buffer read_op

  unfoldable pub drop_read :
      Config W → (fcn payload address len : ℕ) → Place W CallState → (W → List ℕ) → Run W (Unit {0})
  unfolding BufferedCall.drop read_op
  drop_read cfg fcn payload address len place buffer =
      BufferedCall.drop raw cfg driver_num subscribe_read allow_rw_read fcn payload address len
        place buffer read_op
