-- ===== src/Unittest/Fake/Reading/Fails.antt =====
-- The rounds of `Reading` whose command fails: the blocking calls under apis do not wait, and
-- unregister the upcall all the same.
use libtock_rs.Common.{
  ℕ, ◌<◌, ◌^◌, ◌≡◌, refl, ◌∙◌, ap, none, some, [], Result, err, returns, arith, bind-returns,
  ==-refl, ◌>>=◌, pure,
}
use libtock_rs.Platform.ErrorCode.{ErrorCode}
use libtock_rs.Platform.Syscalls.{Config, Fallible}
use libtock_rs.Platform.Syscalls
use libtock_rs.Platform.Share.{scope}
use libtock_rs.Apis.Blocking.{
  wait_or_fail, wait_if_ok, result_of_cell, read_waited, try_wait, try_start, wait_if_started,
  start_if_registered,
}
use libtock_rs.Unittest.KernelData.{KernelData}
use libtock_rs.Unittest.World.{World, hosted}
use libtock_rs.Unittest.Syscalls.Enter.{rest}
use libtock_rs.Unittest.Syscalls.Subscribe.{purge}
use libtock_rs.Unittest.Syscalls.Subscribe.Effect.{subscribed, the_id}
use libtock_rs.Unittest.Fake.{fake_syscalls}
use libtock_rs.Unittest.Fake.Command.{IsReturn}
use libtock_rs.Unittest.Fake.Unsubscribe.{unsubscribe_lem, null_upcall}
use libtock_rs.Platform.CommandReturn.Data.{to_result, success_unit, failure_code}
use libtock_rs.Unittest.CommandReturn.{failure}
use libtock_rs.Unittest.Fake.Results.{command_gives}
use libtock_rs.Unittest.Fake.Reading.{
  Round, scope-returns, unit_command, IsReleased, none_queued, begun, listening_world,
  listening_kernel, listening_driver, command_kernel, register, registers, command_world, present,
}

module _ {H V : Type 0} (r : Round H V) where
  -- The world after a scope in which the command has failed and changed nothing.
  abbrev pub refused_kernel : KernelData
  refused_kernel = subscribed r.n 0 (command_kernel r) null_upcall (listening_driver r)

  abbrev pub refused : World H
  refused = record (begun r) { kernel_data = some refused_kernel }

  unsubscribes_refused :
      Syscalls.unsubscribe (fake_syscalls r.env) r.n 0 (command_world r) ≡ returns (tt, refused)
  unsubscribes_refused =
      (unsubscribe_lem r.env r.n 0 (command_world r) (command_kernel r) (listening_driver r) r.n32
        (omega arith) refl (ap (λ es. rest (rest es)) r.he) (present r) r.h).0

  pub refused-IsReleased : r.k.upcall_queue ≡ [] → IsReleased r.n refused
  refused-IsReleased hq = (
    refused_kernel,
    refl,
    ap (purge (the_id r.n 0 (command_kernel r))) (none_queued r hq),
    (unsubscribe_lem r.env r.n 0 (command_world r) (command_kernel r) (listening_driver r) r.n32
            (omega arith) refl (ap (λ es. rest (rest es)) r.he) (present r) r.h).3
          r.n 0
        ∙ rw (==-refl r.n) refl,
  )

  -- The command, where the driver answers with a failure and changes nothing.
  pub start_fails :
      (e : ErrorCode)
      → r.c < 2 ^ 32
      → r.a < 2 ^ 32
      → r.b < 2 ^ 32
      → r.env.command r.d.driver r.c r.a r.b (command_world r)
        ≡ returns (failure e, (command_world r))
      → IsReturn (failure e)
      → to_result success_unit failure_code (failure e) ≡ err e
      → unit_command r.env r.n r.c r.a r.b (listening_world r) ≡ returns (err e, (command_world r))
  start_fails e hc ha hb run h x =
      command_gives r.env r.n r.c r.a r.b (listening_world r) (listening_kernel r) r.n32 hc ha hb
        refl (ap rest r.he) (listening_driver r) (present r) (to_result success_unit failure_code)
        (failure e) (err e) (command_world r) run h x

  -- A blocking call with `?` whose command fails returns the error, and has unregistered the upcall.
  pub wait_or_fail_fails :
      {A : Type 0} (start : Fallible (World H) (Unit {0})) (e : ErrorCode)
      (otherwise : Result A ErrorCode) (f : V → Result A ErrorCode) (fuel : ℕ)
      → start (listening_world r) ≡ returns (err e, (command_world r))
      → wait_or_fail
          (hosted r.cell)
          (fake_syscalls r.env)
          otherwise
          f
          fuel
          r.n
          start
          (register r)
          r.w
        ≡ returns (some (err e), refused)
  unfolding wait_or_fail
  wait_or_fail_fails start e otherwise f fuel fails =
      scope-returns (Syscalls.unsubscribe (fake_syscalls r.env) r.n 0)
        ((register r)
          >>= try_start (hosted r.cell) (fake_syscalls r.env) otherwise f fuel r.n start)
        (bind-returns (register r)
            (try_start (hosted r.cell) (fake_syscalls r.env) otherwise f fuel r.n start)
            (registers r)
          ∙ bind-returns start
              (try_wait (hosted r.cell) (fake_syscalls r.env) otherwise f fuel r.n start) fails)
        unsubscribes_refused

  -- One with `if let Ok(())` returns what an empty cell says.
  pub wait_if_ok_fails :
      {A : Type 0} (start : Fallible (World H) (Unit {0})) (e : ErrorCode)
      (otherwise : Result A ErrorCode) (f : V → Result A ErrorCode) (fuel : ℕ)
      → start (listening_world r) ≡ returns (err e, (command_world r))
      → wait_if_ok (hosted r.cell) (fake_syscalls r.env) otherwise f fuel r.n start (register r) r.w
        ≡ returns (some otherwise, refused)
  unfolding wait_if_ok
  wait_if_ok_fails start e otherwise f fuel fails =
      bind-returns
        (scope (Syscalls.unsubscribe (fake_syscalls r.env) r.n 0) (
          (register r)
          >>= start_if_registered (hosted r.cell) (fake_syscalls r.env) otherwise f fuel r.n start))
        (read_waited (hosted r.cell) (fake_syscalls r.env) otherwise f fuel r.n start)
        (scope-returns (Syscalls.unsubscribe (fake_syscalls r.env) r.n 0)
          ((register r)
            >>= start_if_registered (hosted r.cell) (fake_syscalls r.env) otherwise f fuel r.n
                start)
          (bind-returns (register r)
              (start_if_registered (hosted r.cell) (fake_syscalls r.env) otherwise f fuel r.n start)
              (registers r)
            ∙ bind-returns start
                (wait_if_started (hosted r.cell) (fake_syscalls r.env) otherwise f fuel r.n start)
                fails)
          unsubscribes_refused)
      ∙ bind-returns (result_of_cell (hosted r.cell) otherwise f) (λ x. pure (some x)) stays_empty
    where
      stays_empty :
          result_of_cell (hosted r.cell) otherwise f refused ≡ returns (otherwise, refused)
      stays_empty = rw (r.cell.get-put none r.w.host, result_of_cell) refl
