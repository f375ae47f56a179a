-- ===== src/Unittest/Fake/Command.antt =====
-- `command` of platform/src/syscalls_impl.rs on the fake kernel: what a driver returns arrives.
use libtock_rs.Common.{
  ℕ, ◌<◌, ◌^◌, ◌≡◌, refl, Option, none, some, List, [], ◌∷◌, lookup, Outcome, returns, arith,
  bind-returns, ◌∙◌, ap,
}
use libtock_rs.Platform.ErrorCode
use libtock_rs.Platform.ErrorCode.{ErrorCode, no_device}
use libtock_rs.Platform.CommandReturn.{CommandReturn, IsWords, raw_values}
use libtock_rs.Platform.Syscalls.{command_result}
use libtock_rs.Platform.Syscalls
use libtock_rs.Unittest.CommandReturn.{failure}
use libtock_rs.Unittest.KernelData.{KernelData, DriverData, ExpectedSyscall, SyscallLogEntry}
use libtock_rs.Unittest.World.{World, Env}
use libtock_rs.Unittest.Syscalls.Enter.{enter}
use libtock_rs.Unittest.Syscalls.Steps.{u32_step, closure_step}
use libtock_rs.Unittest.Syscalls.Command.{
  command, command_enter, driver_of, driver_return, unwrap_or,
}
use libtock_rs.Unittest.Syscalls.Raw.{syscall4}
use libtock_rs.Unittest.Fake.{fake_syscalls}

-- A return whose variant and registers are words.
abbrev pub IsReturn : CommandReturn → Type 0
IsReturn r = (r.return_variant < 2 ^ 32) × IsWords r

command_result-raw_values : (r : CommandReturn) → IsReturn r → command_result (raw_values r) ≡ r
unfolding command_result raw_values
command_result-raw_values r h = ground (arith, h.1.word_1, h.1.word_2, h.1.word_3)

pub no_device-IsReturn : IsReturn (failure no_device)
unfolding failure ErrorCode.as_u32
no_device-IsReturn = (omega arith, omega arith)

module _ {H : Type 0} (env : Env H) (d c a b : ℕ) (w : World H) (k : KernelData) (hd : d < 2 ^ 32)
    (hc : c < 2 ^ 32) (ha : a < 2 ^ 32) (hb : b < 2 ^ 32) (hk : w.kernel_data ≡ some k) where
  abbrev pub entered : World H
  entered = record w { kernel_data = some (enter (SyscallLogEntry.command d c a b) k) }

  -- From the registers of the call on, given what the closure found and what the driver returned.
  command_registers :
      (driver : Option ℕ) (o : Option CommandReturn) (r : CommandReturn) (w' : World H)
      → command_enter d c a b k ≡ returns ((driver, o), enter (SyscallLogEntry.command d c a b) k)
      → driver_return env driver c a b entered ≡ returns (r, w')
      → command env d c a b w ≡ returns (raw_values (unwrap_or o r), w')
  unfolding command
  command_registers driver o r w' found answer =
      u32_step d _ w hd
      ∙ u32_step c _ w hc
      ∙ u32_step a _ w ha
      ∙ u32_step b _ w hb
      ∙ closure_step (command_enter d c a b) _ w k _ (driver, o) hk found
      ∙ bind-returns (driver_return env driver c a b) _ answer

  command_answers :
      (driver : Option ℕ) (o : Option CommandReturn) (r : CommandReturn) (w' : World H)
      → command_enter d c a b k ≡ returns ((driver, o), enter (SyscallLogEntry.command d c a b) k)
      → driver_return env driver c a b entered ≡ returns (r, w')
      → IsReturn (unwrap_or o r)
      → Syscalls.command (fake_syscalls env) d c a b w ≡ returns (unwrap_or o r, w')
  unfolding Syscalls.command syscall4
  command_answers driver o r w' found answer h =
      bind-returns (command env d c a b) _ (command_registers driver o r w' found answer)
      ∙ ap (λ x. returns (x, w')) (command_result-raw_values (unwrap_or o r) h)

  found_none :
      k.expected_syscalls ≡ []
      → command_enter d c a b k
        ≡ returns
            ((driver_of (lookup d k.drivers), none), enter (SyscallLogEntry.command d c a b) k)
  unfolding command_enter
  found_none he = ground arith

  found_override :
      (o : Option CommandReturn) (es : List ExpectedSyscall)
      → k.expected_syscalls ≡ ExpectedSyscall.command d c a b o ∷ es
      → command_enter d c a b k
        ≡ returns ((driver_of (lookup d k.drivers), o), enter (SyscallLogEntry.command d c a b) k)
  unfolding command_enter
  found_override o es he = ground arith

  abbrev Found : Type 0
  Found = Outcome ((Option ℕ × Option CommandReturn) × KernelData)

  abbrev found : Option CommandReturn → Option DriverData → Found
  found o data' = returns ((driver_of data', o), enter (SyscallLogEntry.command d c a b) k)

  found_driver :
      (o : Option CommandReturn) (data' : Option DriverData)
      → lookup d k.drivers ≡ data'
      → found o (lookup d k.drivers) ≡ found o data'
  found_driver o data' e = ap (found o) e

  -- With no expected system calls, a command reaches the driver with its number, in the world where
  -- the call is logged, and the application gets what the driver returns, in the world that the
  -- driver leaves. The values fit in 32 bits.
  pub command_routes :
      (data' : DriverData) (r : CommandReturn) (w' : World H)
      → k.expected_syscalls ≡ []
      → lookup d k.drivers ≡ some data'
      → env.command data'.driver c a b entered ≡ returns (r, w')
      → IsReturn r
      → Syscalls.command (fake_syscalls env) d c a b w ≡ returns (r, w')
  command_routes data' r w' he hl run h =
      command_answers (some data'.driver) none r w'
        (found_none he ∙ found_driver none (some data') hl) (unfold driver_return in run) h

  -- Where the next expected system call is this command with a return value, the driver still runs,
  -- but the application gets that value. The values fit in 32 bits.
  pub command_overrides :
      (data' : DriverData) (r o : CommandReturn) (w' : World H) (es : List ExpectedSyscall)
      → k.expected_syscalls ≡ ExpectedSyscall.command d c a b (some o) ∷ es
      → lookup d k.drivers ≡ some data'
      → env.command data'.driver c a b entered ≡ returns (r, w')
      → IsReturn o
      → Syscalls.command (fake_syscalls env) d c a b w ≡ returns (o, w')
  command_overrides data' r o w' es he hl run h =
      command_answers (some data'.driver) (some o) r w'
        (found_override (some o) es he ∙ found_driver (some o) (some data') hl)
        (unfold driver_return in run) h

  -- With no expected system calls and no driver with the number, a command is answered with
  -- `NoDevice`, and changes no more than the log. The values fit in 32 bits.
  pub command_no_device :
      k.expected_syscalls ≡ []
      → lookup d k.drivers ≡ none
      → Syscalls.command (fake_syscalls env) d c a b w ≡ returns (failure no_device, entered)
  command_no_device he hl =
      command_answers none none (failure no_device) entered
        (found_none he ∙ found_driver none none hl) (unfold driver_return in refl)
        no_device-IsReturn
