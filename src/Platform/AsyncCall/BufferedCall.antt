-- ===== src/Platform/AsyncCall/BufferedCall.antt =====
-- `BufferedCall` of platform/src/async_call.rs, with the system calls, the numbers of the driver, of the
-- upcall and of the buffer, the upcall's two registers, the buffer's address and length and the places
-- of the future's state and of its buffer as parameters.
use libtock_rs.Common.{ℕ, List, Result, ok, Run, ◌>>=◌, ◌>>◌, pure}
use libtock_rs.Platform.ErrorCode.{ErrorCode}
use libtock_rs.Platform.RawSyscalls.{RawSyscalls}
use libtock_rs.Platform.Syscalls.{Config, Fallible, subscribe, unsubscribe, allow_rw, unallow_rw}
use libtock_rs.Platform.AsyncCall.{
  Poll, Future, Place, CallState, and_then, modify, set_started, poll_with, drop_with,
}

-- `BufferedOperation`, whose `complete` also reads the bytes of the buffer.
pub record BufferedOperation (W V : Type 0) : Type 0 where
  pub start : ℕ → Fallible W (Unit {0})
  pub cancel : Run W (Unit {0})
  pub complete : ℕ × ℕ × ℕ → List ℕ → Fallible W V

module _ {W V : Type 0} (raw : RawSyscalls W) (cfg : Config W)
    (driver_num subscribe_num buffer_num : ℕ) (upcall_fcn upcall_data address len : ℕ)
    (place : Place W CallState) (buffer : W → List ℕ) (operation : BufferedOperation W V) where
  -- The system calls of the first poll.
  unfoldable pub begin : Fallible W (Unit {0})
  begin = do
    allowed ← allow_rw raw cfg driver_num buffer_num address len
    and_then allowed (do
      subscribed ← subscribe raw cfg driver_num subscribe_num upcall_fcn upcall_data
      and_then subscribed (do
        started ← operation.start len
        and_then started (do modify place set_started; pure (ok tt))))

  -- `operation.complete` on the buffer as it is.
  abbrev complete : ℕ × ℕ × ℕ → Fallible W V
  complete args w = operation.complete args (buffer w) w

  unfoldable pub finish : ℕ × ℕ × ℕ → Fallible W V
  finish args = do unallow_rw raw driver_num buffer_num; complete args

  -- `Future::poll`
  unfoldable pub poll : ℕ → Run W (Poll (Result V ErrorCode))
  unfolding poll_with begin finish
  poll = poll_with place finish begin

  -- `Drop::drop`, and then those of the fields `allow` and `subscribe`.
  unfoldable pub drop : Run W (Unit {0})
  unfolding drop_with
  drop = do
    drop_with place operation.cancel
    unallow_rw raw driver_num buffer_num
    unsubscribe raw driver_num subscribe_num

  -- A `BufferedCall` as a future.
  abbrev pub future : Future W (Result V ErrorCode)
  future = record { poll = poll; drop = drop }
