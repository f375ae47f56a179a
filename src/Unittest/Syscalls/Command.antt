-- ===== src/Unittest/Syscalls/Command.antt =====
-- unittest/src/fake/syscalls/command_impl.rs
use libtock_rs.Common.{
  ℕ, ◌&&◌, Option, none, some, lookup, ◌==◌, if◌then◌else◌, Outcome, returns, panics, exits,
}
use libtock_rs.Platform.ErrorCode.{no_device}
use libtock_rs.Platform.CommandReturn.{CommandReturn, raw_values}
use libtock_rs.Unittest.CommandReturn.{failure}
use libtock_rs.Unittest.KernelData.{KernelData, DriverData, ExpectedSyscall, SyscallLogEntry}
use libtock_rs.Unittest.World.{M, Env, ◌>>=◌, pure, with_kernel_data, expect_u32}
use libtock_rs.Unittest.Syscalls.Enter.{Registers4, enter, front}

-- The match on the expected system call, which gives the return value to use instead.
unfoldable pub expect_command :
    ℕ → ℕ → ℕ → ℕ → Option ExpectedSyscall → Outcome (Option CommandReturn)
expect_command driver_id command_id argument0 argument1 none = returns none
expect_command driver_id command_id argument0 argument1
      (some (ExpectedSyscall.command d c a0 a1 override_return)) =
    if driver_id == d && (command_id == c && (argument0 == a0 && argument1 == a1))
    then returns override_return
    else panics
expect_command driver_id command_id argument0 argument1 (some _) = panics

abbrev pub driver_of : Option DriverData → Option ℕ
driver_of none = none
driver_of (some d) = some d.driver

-- The closure: the driver, and the return value to use instead of the driver's.
unfoldable pub command_enter :
    ℕ → ℕ → ℕ → ℕ → KernelData → Outcome ((Option ℕ × Option CommandReturn) × KernelData)
unfolding expect_command
command_enter driver_id command_id argument0 argument1 k =
    elim (expect_command driver_id command_id argument0 argument1 (front k.expected_syscalls)) [
      | panics ↦ panics
      | exits c ↦ exits c
      | returns override_return ↦ returns (
        (driver_of (lookup driver_id k.drivers), override_return),
        enter (SyscallLogEntry.command driver_id command_id argument0 argument1) k,
      )
    ]

-- The driver's return, or `NoDevice` if there is no driver.
unfoldable pub driver_return : {H : Type 0} → Env H → Option ℕ → ℕ → ℕ → ℕ → M H CommandReturn
driver_return env none command_id argument0 argument1 = pure (failure no_device)
driver_return env (some driver) command_id argument0 argument1 =
    env.command driver command_id argument0 argument1

abbrev pub unwrap_or : Option CommandReturn → CommandReturn → CommandReturn
unwrap_or none c = c
unwrap_or (some o) c = o

unfoldable pub command : {H : Type 0} → Env H → ℕ → ℕ → ℕ → ℕ → M H Registers4
unfolding command_enter driver_return raw_values
command env r0 r1 r2 r3 = do
  driver_id ← expect_u32 r0
  command_id ← expect_u32 r1
  argument0 ← expect_u32 r2
  argument1 ← expect_u32 r3
  found ← with_kernel_data (command_enter driver_id command_id argument0 argument1)
  returned ← driver_return env found.0 command_id argument0 argument1
  pure (raw_values (unwrap_or found.1 returned))
