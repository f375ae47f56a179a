-- ===== src/Unittest/Syscalls/Yield.antt =====
-- unittest/src/fake/syscalls/yield_impl.rs. The value written to `return_ptr` is returned.
pub mod Fifo
pub mod Drain
use libtock_rs.Common.{
  ℕ, Bool, true, false, Option, none, some, List, [], ◌∷◌, if◌then◌else◌, Outcome, returns, panics,
  exits,
}
use libtock_rs.Platform.RawSyscalls.{YieldNoWaitReturn, no_upcall, upcall}
use libtock_rs.Unittest.KernelData.{
  KernelData, Upcall, UpcallQueueEntry, Args, ExpectedSyscall, SyscallLogEntry,
}
use libtock_rs.Unittest.World.{M, Env, ◌>>=◌, ◌>>◌, pure, with_kernel_data}
use libtock_rs.Unittest.Syscalls.Enter.{enter, front}

-- The matches on the expected system call.
unfoldable pub expect_yield_no_wait : Option ExpectedSyscall → Outcome (Option YieldNoWaitReturn)
expect_yield_no_wait none = returns none
expect_yield_no_wait (some (ExpectedSyscall.yield_no_wait override_return)) =
    returns override_return
expect_yield_no_wait (some _) = panics

unfoldable pub expect_yield_wait : Option ExpectedSyscall → Outcome Bool
expect_yield_wait none = returns false
expect_yield_wait (some (ExpectedSyscall.yield_wait skip_upcall)) = returns skip_upcall
expect_yield_wait (some _) = panics

unfoldable pub yield_no_wait_enter : KernelData → Outcome (Option YieldNoWaitReturn × KernelData)
unfolding expect_yield_no_wait
yield_no_wait_enter k = elim (expect_yield_no_wait (front k.expected_syscalls)) [
  | panics ↦ panics
  | exits c ↦ exits c
  | returns override_return ↦ returns (override_return, enter SyscallLogEntry.yield_no_wait k)
]

unfoldable pub yield_wait_enter : KernelData → Outcome (Bool × KernelData)
unfolding expect_yield_wait
yield_wait_enter k = elim (expect_yield_wait (front k.expected_syscalls)) [
  | panics ↦ panics
  | exits c ↦ exits c
  | returns skip_upcall ↦ returns (skip_upcall, enter SyscallLogEntry.yield_wait k)
]

-- `upcall_queue.pop_front()`
unfoldable pub pop_queue : KernelData → Outcome (Option UpcallQueueEntry × KernelData)
pop_queue k = elim k.upcall_queue [
  | [] ↦ returns (none, k)
  | e ∷ es ↦ returns (some e, record k { upcall_queue = es })
]

-- `Upcall::invoke` of unittest/src/upcall.rs
unfoldable pub invoke : {H : Type 0} → Env H → Upcall → Args → M H (Unit {0})
invoke env u args = elim u.fn_pointer [
  | none ↦ pure tt
  | some fn_pointer ↦ env.upcall_fn fn_pointer args u.payload
]

unfoldable pub invoke_entry : {H : Type 0} → Env H → Option UpcallQueueEntry → M H Bool
unfolding invoke
invoke_entry env none = pure false
invoke_entry env (some e) = do invoke env e.upcall e.args; pure true

unfoldable pub invoke_next_upcall : {H : Type 0} → Env H → M H Bool
unfolding pop_queue invoke_entry
invoke_next_upcall env = do e ← with_kernel_data pop_queue; invoke_entry env e

abbrev pub unwrap_or : Option YieldNoWaitReturn → YieldNoWaitReturn → YieldNoWaitReturn
unwrap_or none r = r
unwrap_or (some o) r = o

unfoldable pub yield_no_wait : {H : Type 0} → Env H → M H YieldNoWaitReturn
unfolding yield_no_wait_enter invoke_next_upcall
yield_no_wait env = do
  override_return ← with_kernel_data yield_no_wait_enter
  ran ← invoke_next_upcall env
  pure (unwrap_or override_return (if ran then upcall else no_upcall))

abbrev pub assert_ran : {H : Type 0} → Bool → M H (Unit {0})
assert_ran true w = returns (tt, w)
assert_ran false w = panics

unfoldable pub yield_wait : {H : Type 0} → Env H → M H (Unit {0})
unfolding yield_wait_enter invoke_next_upcall
yield_wait env = do
  skip_upcall ← with_kernel_data yield_wait_enter
  if skip_upcall then pure tt else do ran ← invoke_next_upcall env; assert_ran ran
