-- ===== src/Unittest/Fake/Reading/Waits.antt =====
-- The rounds of `Reading` whose command succeeds: the loop of the blocking calls under apis ends, and
-- the call returns what the upcall's argument says.
use libtock_rs.Common.{
  ℕ, zero, suc, ◌≡◌, refl, ◌∙◌, Option, some, Result, ok, returns, bind-returns, ◌>>=◌, pure,
}
use libtock_rs.Platform.ErrorCode.{ErrorCode}
use libtock_rs.Platform.Syscalls.{Config, Fallible}
use libtock_rs.Platform.Syscalls
use libtock_rs.Platform.Share.{scope}
use libtock_rs.Platform.AsyncCall.{Place}
use libtock_rs.Apis.Blocking.{
  yield_until_called, return_if_called, wait_while_none, wait_or_fail, wait_if_ok, result_of_cell,
  read_waited, try_wait, try_start, wait_if_started, start_if_registered,
}
use libtock_rs.Unittest.World.{World, Env, hosted}
use libtock_rs.Unittest.Fake.{fake_syscalls}
use libtock_rs.Unittest.Fake.Reading.{
  Round, scope-returns, listening_world, queued, called, released, register, registers,
  unsubscribes, yields,
}

module _ {H V : Type 0} (env : Env H) (cell : Place H (Option V)) where
  waited :
      (fuel : ℕ) (w : World H) (v : V)
      → cell.get w.host ≡ some v
      → wait_while_none (hosted cell) (fake_syscalls env) fuel w ≡ returns (some tt, w)
  unfolding wait_while_none
  waited zero w v h = rw (h, wait_while_none) refl
  waited (suc fuel) w v h = rw (h, wait_while_none) refl

module _ {H V : Type 0} (r : Round H V) where
  waits :
      (fuel : ℕ)
      → wait_while_none (hosted r.cell) (fake_syscalls r.env) (suc fuel) (queued r)
        ≡ returns (some tt, (called r))
  unfolding wait_while_none
  waits fuel =
      rw (r.unset, wait_while_none)
        (bind-returns (Syscalls.yield_wait (fake_syscalls r.env)) _ (yields r)
          ∙ waited r.env r.cell fuel (called r) (r.decode r.args)
              (r.cell.get-put (some (r.decode r.args)) r.host))

  -- The loop that yields before it looks at the cell.
  pub loops :
      (fuel : ℕ)
      → yield_until_called (hosted r.cell) (fake_syscalls r.env) (suc fuel) (queued r)
        ≡ returns (some (r.decode r.args), (called r))
  unfolding yield_until_called
  loops fuel =
      bind-returns (Syscalls.yield_wait (fake_syscalls r.env)) _ (yields r)
      ∙ rw (r.cell.get-put (some (r.decode r.args)) r.host, return_if_called) refl

  -- A blocking call with `?` returns what the upcall's argument says, in the world where the upcall is
  -- unregistered.
  module _ {A : Type 0} (start : Fallible (World H) (Unit {0}))
      (starts : start (listening_world r) ≡ returns (ok tt, (queued r)))
      (otherwise : Result A ErrorCode) (f : V → Result A ErrorCode) (fuel : ℕ) where
    filled : r.cell.get (called r).host ≡ some (r.decode r.args)
    filled = r.cell.get-put (some (r.decode r.args)) r.host

    reads :
        result_of_cell (hosted r.cell) otherwise f (called r)
        ≡ returns (f (r.decode r.args), (called r))
    reads = rw (filled, result_of_cell) refl

    reads_after :
        result_of_cell (hosted r.cell) otherwise f (released r)
        ≡ returns (f (r.decode r.args), (released r))
    reads_after = rw (filled, result_of_cell) refl

    pub wait_or_fail_returns :
        wait_or_fail
          (hosted r.cell)
          (fake_syscalls r.env)
          otherwise
          f
          (suc fuel)
          r.n
          start
          (register r)
          r.w
        ≡ returns (some (f (r.decode r.args)), (released r))
    unfolding wait_or_fail
    wait_or_fail_returns =
        scope-returns (Syscalls.unsubscribe (fake_syscalls r.env) r.n 0)
          ((register r)
            >>= try_start (hosted r.cell) (fake_syscalls r.env) otherwise f (suc fuel) r.n start)
          (bind-returns (register r)
              (try_start (hosted r.cell) (fake_syscalls r.env) otherwise f (suc fuel) r.n start)
              (registers r)
            ∙ bind-returns start
                (try_wait (hosted r.cell) (fake_syscalls r.env) otherwise f (suc fuel) r.n start)
                starts
            ∙ bind-returns (wait_while_none (hosted r.cell) (fake_syscalls r.env) (suc fuel))
                (read_waited (hosted r.cell) (fake_syscalls r.env) otherwise f (suc fuel) r.n start)
                (waits fuel)
            ∙ bind-returns (result_of_cell (hosted r.cell) otherwise f) (λ x. pure (some x)) reads)
          (unsubscribes r)

    pub wait_if_ok_returns :
        wait_if_ok
          (hosted r.cell)
          (fake_syscalls r.env)
          otherwise
          f
          (suc fuel)
          r.n
          start
          (register r)
          r.w
        ≡ returns (some (f (r.decode r.args)), (released r))
    unfolding wait_if_ok
    wait_if_ok_returns =
        bind-returns
          (scope (Syscalls.unsubscribe (fake_syscalls r.env) r.n 0) (
            (register r)
            >>= start_if_registered (hosted r.cell) (fake_syscalls r.env) otherwise f (suc fuel) r.n
                start))
          (read_waited (hosted r.cell) (fake_syscalls r.env) otherwise f (suc fuel) r.n start)
          (scope-returns (Syscalls.unsubscribe (fake_syscalls r.env) r.n 0)
            ((register r)
              >>= start_if_registered (hosted r.cell) (fake_syscalls r.env) otherwise f (suc fuel)
                  r.n start)
            (bind-returns (register r)
                (start_if_registered (hosted r.cell) (fake_syscalls r.env) otherwise f (suc fuel)
                  r.n start)
                (registers r)
              ∙ bind-returns start
                  (wait_if_started (hosted r.cell) (fake_syscalls r.env) otherwise f (suc fuel) r.n
                    start)
                  starts
              ∙ waits fuel)
            (unsubscribes r))
        ∙ bind-returns (result_of_cell (hosted r.cell) otherwise f) (λ x. pure (some x)) reads_after
