-- ===== src/Unittest/Syscalls/Yield/Fifo.antt =====
-- unittest/src/fake/syscalls/yield_impl.rs: which upcall a yield runs, and in which order.
use libtock_rs.Common.{
  ◌≡◌, refl, ◌∙◌, Bool, true, false, Option, none, some, List, [], ◌∷◌, returns, panics,
  if◌then◌else◌, arith, bind-returns,
}
use libtock_rs.Platform.RawSyscalls.{YieldNoWaitReturn, no_upcall, upcall}
use libtock_rs.Unittest.KernelData.{KernelData, UpcallQueueEntry, ExpectedSyscall, SyscallLogEntry}
use libtock_rs.Unittest.World.{World, Env, pure}
use libtock_rs.Unittest.Syscalls.Enter.{enter}
use libtock_rs.Unittest.Syscalls.Steps.{closure_step}
use libtock_rs.Unittest.Syscalls.Yield.{
  yield_wait, yield_no_wait, yield_wait_enter, yield_no_wait_enter, pop_queue, invoke, invoke_entry,
  invoke_next_upcall, unwrap_or, assert_ran, expect_yield_wait, expect_yield_no_wait,
}

module _ {H : Type 0} (env : Env H) (w : World H) where
  -- The world with these kernel data.
  abbrev pub holding : KernelData → World H
  holding k = record w { kernel_data = some k }

  next_none :
      (k : KernelData)
      → k.upcall_queue ≡ []
      → invoke_next_upcall env (holding k) ≡ returns (false, holding k)
  unfolding invoke_next_upcall
  next_none k hq =
      closure_step pop_queue (invoke_entry env) (holding k) k k none refl
        (unfold pop_queue in ground arith)
      ∙ unfold invoke_entry in refl

  next_some :
      (k : KernelData) (e : UpcallQueueEntry) (es : List UpcallQueueEntry) (w' : World H)
      → k.upcall_queue ≡ e ∷ es
      → invoke env e.upcall e.args (holding (record k { upcall_queue = es })) ≡ returns (tt, w')
      → invoke_next_upcall env (holding k) ≡ returns (true, w')
  unfolding invoke_next_upcall
  next_some k e es w' hq run =
      closure_step pop_queue (invoke_entry env) (holding k) k (record k { upcall_queue = es })
        (some e) refl (unfold pop_queue in ground arith)
      ∙ unfold invoke_entry in bind-returns (invoke env e.upcall e.args) _ run

  yield_no_wait_goes :
      (k k' : KernelData) (o : Option YieldNoWaitReturn) (ran : Bool) (w' : World H)
      → w.kernel_data ≡ some k
      → yield_no_wait_enter k ≡ returns (o, k')
      → invoke_next_upcall env (holding k') ≡ returns (ran, w')
      → yield_no_wait env w ≡ returns (unwrap_or o (if ran then upcall else no_upcall), w')
  unfolding yield_no_wait
  yield_no_wait_goes k k' o ran w' hk he run =
      closure_step yield_no_wait_enter _ w k k' o hk he
      ∙ bind-returns (invoke_next_upcall env)
          (λ b. pure (unwrap_or o (if b then upcall else no_upcall))) {w = holding k'} run

  yield_wait_goes :
      (k k' : KernelData) (ran : Bool) (w' : World H)
      → w.kernel_data ≡ some k
      → yield_wait_enter k ≡ returns (false, k')
      → invoke_next_upcall env (holding k') ≡ returns (ran, w')
      → yield_wait env w ≡ assert_ran ran w'
  unfolding yield_wait
  yield_wait_goes k k' ran w' hk he run =
      closure_step yield_wait_enter _ w k k' false hk he
      ∙ bind-returns (invoke_next_upcall env) assert_ran {w = holding k'} run

  enter_no_wait :
      (k : KernelData)
      → k.expected_syscalls ≡ []
      → yield_no_wait_enter k ≡ returns (none, enter SyscallLogEntry.yield_no_wait k)
  unfolding yield_no_wait_enter expect_yield_no_wait
  enter_no_wait k he = ground arith

  enter_wait :
      (k : KernelData)
      → k.expected_syscalls ≡ []
      → yield_wait_enter k ≡ returns (false, enter SyscallLogEntry.yield_wait k)
  unfolding yield_wait_enter expect_yield_wait
  enter_wait k he = ground arith

  enter_skip :
      (k : KernelData) (es : List ExpectedSyscall)
      → k.expected_syscalls ≡ ExpectedSyscall.yield_wait true ∷ es
      → yield_wait_enter k ≡ returns (true, enter SyscallLogEntry.yield_wait k)
  unfolding yield_wait_enter expect_yield_wait
  enter_skip k es he = ground arith

  -- Where the next expected system call is a yield-wait that skips the upcall, yield-wait returns,
  -- and has logged the call and left the queue and all else alone.
  pub yield_wait_skips :
      (k : KernelData) (es : List ExpectedSyscall)
      → w.kernel_data ≡ some k
      → k.expected_syscalls ≡ ExpectedSyscall.yield_wait true ∷ es
      → yield_wait env w ≡ returns (tt, holding (enter SyscallLogEntry.yield_wait k))
  unfolding yield_wait
  yield_wait_skips k es hk he =
      closure_step yield_wait_enter _ w k (enter SyscallLogEntry.yield_wait k) true hk
        (enter_skip k es he)

  -- With no expected system calls, yield-wait runs the upcall at the front of the queue, in a world
  -- whose queue is the rest and whose log has the call, and ends in the world that the upcall leaves.
  pub yield_wait_runs :
      (k : KernelData) (e : UpcallQueueEntry) (es : List UpcallQueueEntry) (w' : World H)
      → w.kernel_data ≡ some k
      → k.expected_syscalls ≡ []
      → k.upcall_queue ≡ e ∷ es
      → invoke env e.upcall e.args
          (holding (record (enter SyscallLogEntry.yield_wait k) { upcall_queue = es }))
        ≡ returns (tt, w')
      → yield_wait env w ≡ returns (tt, w')
  yield_wait_runs k e es w' hk he hq run =
      yield_wait_goes k (enter SyscallLogEntry.yield_wait k) true w' hk (enter_wait k he)
        (next_some (enter SyscallLogEntry.yield_wait k) e es w' hq run)

  -- With no expected system calls and no upcall in the queue, yield-wait panics.
  pub yield_wait_panics :
      (k : KernelData)
      → w.kernel_data ≡ some k
      → k.expected_syscalls ≡ []
      → k.upcall_queue ≡ []
      → yield_wait env w ≡ panics
  yield_wait_panics k hk he hq =
      yield_wait_goes k (enter SyscallLogEntry.yield_wait k) false
        (holding (enter SyscallLogEntry.yield_wait k)) hk (enter_wait k he)
        (next_none (enter SyscallLogEntry.yield_wait k) hq)

  pub no_wait_some :
      (k : KernelData) (e : UpcallQueueEntry) (es : List UpcallQueueEntry) (w' : World H)
      → w.kernel_data ≡ some k
      → k.expected_syscalls ≡ []
      → k.upcall_queue ≡ e ∷ es
      → invoke env e.upcall e.args
          (holding (record (enter SyscallLogEntry.yield_no_wait k) { upcall_queue = es }))
        ≡ returns (tt, w')
      → yield_no_wait env w ≡ returns (upcall, w')
  no_wait_some k e es w' hk he hq run =
      yield_no_wait_goes k (enter SyscallLogEntry.yield_no_wait k) none true w' hk
        (enter_no_wait k he) (next_some (enter SyscallLogEntry.yield_no_wait k) e es w' hq run)

  pub no_wait_none :
      (k : KernelData)
      → w.kernel_data ≡ some k
      → k.expected_syscalls ≡ []
      → k.upcall_queue ≡ []
      → yield_no_wait env w ≡ returns (no_upcall, holding (enter SyscallLogEntry.yield_no_wait k))
  no_wait_none k hk he hq =
      yield_no_wait_goes k (enter SyscallLogEntry.yield_no_wait k) none false
        (holding (enter SyscallLogEntry.yield_no_wait k)) hk (enter_no_wait k he)
        (next_none (enter SyscallLogEntry.yield_no_wait k) hq)
