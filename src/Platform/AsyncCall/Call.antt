-- ===== src/Platform/AsyncCall/Call.antt =====
-- `Call` of platform/src/async_call.rs, with the system calls, the numbers of the driver and of the
-- upcall, the upcall's two registers and the place of the future as parameters.
use libtock_rs.Common.{ℕ, Result, ok, Run, ◌>>=◌, ◌>>◌, pure}
use libtock_rs.Platform.ErrorCode.{ErrorCode}
use libtock_rs.Platform.RawSyscalls.{RawSyscalls}
use libtock_rs.Platform.Syscalls.{Config, Fallible, subscribe, unsubscribe}
use libtock_rs.Platform.AsyncCall.{
  Poll, Future, Place, CallState, and_then, modify, set_started, poll_with, drop_with,
}

-- `Operation`
pub record Operation (W V : Type 0) : Type 0 where
  pub start : Fallible W (Unit {0})
  pub cancel : Run W (Unit {0})
  pub complete : ℕ × ℕ × ℕ → Fallible W V

module _ {W V : Type 0} (raw : RawSyscalls W) (cfg : Config W) (driver_num subscribe_num : ℕ)
    (upcall_fcn upcall_data : ℕ) (place : Place W CallState) (operation : Operation W V) where
  -- The system calls of the first poll.
  unfoldable pub begin : Fallible W (Unit {0})
  begin = do
    subscribed ← subscribe raw cfg driver_num subscribe_num upcall_fcn upcall_data
    and_then subscribed
        (do started ← operation.start; and_then started (do modify place set_started; pure (ok tt)))

  -- `Future::poll`
  unfoldable pub poll : ℕ → Run W (Poll (Result V ErrorCode))
  unfolding poll_with begin
  poll = poll_with place operation.complete begin

  -- `Drop::drop`, and then that of the field `subscribe`.
  unfoldable pub drop : Run W (Unit {0})
  unfolding drop_with
  drop = do drop_with place operation.cancel; unsubscribe raw driver_num subscribe_num

  -- A `Call` as a future.
  abbrev pub future : Future W (Result V ErrorCode)
  future = record { poll = poll; drop = drop }
