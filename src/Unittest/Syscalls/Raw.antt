-- ===== src/Unittest/Syscalls/Raw.antt =====
-- unittest/src/fake/syscalls/raw_syscalls_impl.rs and exit_impl.rs: the fake kernel as an
-- implementation of `RawSyscalls`. `assert_valid` has no effect outside Miri.
use libtock_rs.Common.{panic, ℕ, ◌==◌, if◌then◌else◌, panics, exits, terminate, restart}
use libtock_rs.Platform.Constants.{
  exit_terminate_id, exit_restart_id, class_subscribe, class_command, class_allow_rw,
  class_allow_ro, class_memop, class_exit, yield_no_wait_id, yield_wait_id,
}
use libtock_rs.Platform.RawSyscalls.{YieldNoWaitReturn}
use libtock_rs.Unittest.World.{M, Env, ◌>>=◌, expect_u32}
use libtock_rs.Unittest.Syscalls.Enter.{Registers4}
use libtock_rs.Unittest.Syscalls.Subscribe.{subscribe}
use libtock_rs.Unittest.Syscalls.Command.{command}
use libtock_rs.Unittest.Syscalls.Allow.{allow_ro, allow_rw}
use libtock_rs.Unittest.Syscalls.Memop.{memop}
use libtock_rs.Unittest.Syscalls.Yield.{yield_no_wait, yield_wait}

unfoldable pub exit : {H A : Type 0} → ℕ → ℕ → M H A
exit r0 r1 = do
  exit_num ← expect_u32 r0
  completion_code ← expect_u32 r1
  λ w.
      if exit_num == exit_terminate_id
      then exits (terminate completion_code)
      else if exit_num == exit_restart_id
      then exits (restart completion_code)
      else panics

unfoldable pub yield1 : {H : Type 0} → Env H → ℕ → M H (Unit {0})
yield1 env r0 = do
  id ← expect_u32 r0
  if id == yield_no_wait_id then panic else if id == yield_wait_id then yield_wait env else panic

unfoldable pub yield2 : {H : Type 0} → Env H → ℕ → M H YieldNoWaitReturn
yield2 env r0 = do id ← expect_u32 r0; if id == yield_no_wait_id then yield_no_wait env else panic

unfoldable pub syscall1 : {H : Type 0} → ℕ → ℕ → M H (ℕ × ℕ)
syscall1 class r0 = if class == class_memop then memop r0 0 else panic

unfoldable pub syscall2 : {H : Type 0} → ℕ → ℕ → ℕ → M H (ℕ × ℕ)
syscall2 class r0 r1 =
    if class == class_memop then memop r0 r1 else if class == class_exit then exit r0 r1 else panic

unfoldable pub syscall4 : {H : Type 0} → Env H → ℕ → ℕ → ℕ → ℕ → ℕ → M H Registers4
syscall4 env class r0 r1 r2 r3 =
    if class == class_subscribe
    then subscribe r0 r1 r2 r3
    else if class == class_command
    then command env r0 r1 r2 r3
    else if class == class_allow_rw
    then allow_rw env r0 r1 r2 r3
    else if class == class_allow_ro
    then allow_ro env r0 r1 r2 r3
    else panic
