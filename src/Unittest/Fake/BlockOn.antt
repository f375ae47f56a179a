-- ===== src/Unittest/Fake/BlockOn.antt =====
-- `block_on` of async/src/lib.rs on a `Call` of platform/src/async_call.rs and the fake kernel.
use libtock_rs.Common.{
  ℕ, ◌+◌, ◌<◌, ◌^◌, ◌≡◌, refl, ◌∙◌, ap, false, some, List, [], ◌∷◌, All, lookup, Result, Run, ok,
  returns, pure, bind-returns, arith, ==-refl,
}
use libtock_rs.Platform.ErrorCode.{ErrorCode}
use libtock_rs.Platform.Syscalls.{Config}
use libtock_rs.Platform.Syscalls
use libtock_rs.Platform.AsyncCall.{
  Future, ready, pending, Place, CallState, shared_upcall, drop_with,
}
use libtock_rs.Platform.AsyncCall.Call
use libtock_rs.Platform.AsyncCall.Call.{Operation}
use libtock_rs.Platform.AsyncCall.States.{call_ready, upcall-args}
use libtock_rs.Async.{block_on, noop}
use libtock_rs.Async.BlockOn.{last, round, block_on_returns}
use libtock_rs.Unittest.KernelData.{
  KernelData, DriverData, UpcallQueueEntry, SyscallLogEntry, Args, id_eq,
}
use libtock_rs.Unittest.World.{World, M, Env}
use libtock_rs.Unittest.ShareData.{schedule}
use libtock_rs.Unittest.Syscalls.Enter.{enter}
use libtock_rs.Unittest.Syscalls.Raw.{yield1}
use libtock_rs.Unittest.Syscalls.Yield.{yield_wait, invoke}
use libtock_rs.Unittest.Syscalls.Yield.Fifo.{yield_wait_runs}
use libtock_rs.Unittest.Syscalls.Subscribe.Effect.{the_id, subscribed, registered}
use libtock_rs.Unittest.Fake.{fake_syscalls}
use libtock_rs.Unittest.Fake.Unsubscribe.{unsubscribe_lem, null_upcall}
use libtock_rs.Unittest.Fake.Drop.{drop_lem}

pub fake_yield_wait :
    {H : Type 0} (env : Env H) (w : World H)
    → Syscalls.yield_wait (fake_syscalls env) w ≡ yield_wait env w
unfolding Syscalls.yield_wait yield1
fake_yield_wait env w = refl

-- A future whose upcall has come is dropped without a cancellation.
drop_with_ready :
    {W : Type 0} (place : Place W CallState) (cancel : Run W (Unit {0})) (args : Args) (w : W)
    → (place.get w).args ≡ some args
    → drop_with place cancel w ≡ returns (tt, w)
unfolding drop_with
drop_with_ready place cancel args w e = rw (e, drop_with) refl

-- `block_on` of a `Call` returns: its first poll is pending and leaves the call's own upcall at the
-- front of the queue, the yield runs that upcall, the second poll interprets the upcall's
-- arguments, and the drop of the call unsubscribes. Two polls are enough. In the world where
-- `block_on` ends the upcall is null and no queued one has its number. No system call is expected, waking
-- a task and the operation's `complete` leave the future alone, `complete` returns, and in the world
-- where it does the driver exists with the upcall's number in its range.
pub block_on_call :
    {H V : Type 0} (env : Env H) (cfg : Config (World H)) (n s upcall_fcn upcall_data fuel : ℕ)
    (place : Place (World H) CallState) (op : Operation (World H) V) (wake : ℕ → M H (Unit {0}))
    (wakes : (waker : ℕ) (v v' : World H)
      → wake waker v ≡ returns (tt, v')
      → place.get v' ≡ place.get v)
    (w w1 w2 w3 : World H) (k k3 : KernelData) (d : DriverData) (e : UpcallQueueEntry)
    (es : List UpcallQueueEntry) (r : Result V ErrorCode)
    → Call.poll (fake_syscalls env) cfg n s upcall_fcn upcall_data place op noop w
      ≡ returns (pending, w1)
    → w1.kernel_data ≡ some k
    → k.expected_syscalls ≡ []
    → k.upcall_queue ≡ e ∷ es
    → ((v : World H) → invoke env e.upcall e.args v ≡ shared_upcall place wake e.args v)
    → shared_upcall place wake e.args (record w1 {
      kernel_data = some (record (enter SyscallLogEntry.yield_wait k) { upcall_queue = es });
    })
      ≡ returns (tt, w2)
    → op.complete e.args w2 ≡ returns (r, w3)
    → place.get w3 ≡ place.get w2
    → n < 2 ^ 32
    → s < 2 ^ 32
    → w3.kernel_data ≡ some k3
    → k3.expected_syscalls ≡ []
    → lookup n k3.drivers ≡ some d
    → s < d.num_upcalls
    → let k' = subscribed n s k3 null_upcall d in
      (block_on
          (fake_syscalls env)
          (fuel + 2)
          (Call.future (fake_syscalls env) cfg n s upcall_fcn upcall_data place op)
          w
        ≡ returns (some r, record w3 { kernel_data = some k' }))
      × All (λ e. id_eq e.id (the_id n s k3) ≡ false) k'.upcall_queue
      × (registered n s k'.drivers ≡ some null_upcall)
block_on_call {H = H} {V = V} env cfg n s upcall_fcn upcall_data fuel place op wake wakes w w1 w2 w3
      k k3 d e es r first hk he hq calls runs completes keeps hn hs hk3 he3 hd3 h3 =
    (
      block_on_returns (fake_syscalls env) future (fuel + 2) 1 r w w3
          (record w3 { kernel_data = some (subscribed n s k3 null_upcall d) })
          (round 0 r w w1 w2 w3 first yields (last r w2 w3 second)) dropped.0 (omega arith),
      dropped.1,
      (unsubscribe_lem env n s w3 k3 d hn hs hk3 he3 hd3 h3).3 n s ∙ rw (==-refl n, ==-refl s) refl,
    )
  where
    future : Future (World H) (Result V ErrorCode)
    future = Call.future (fake_syscalls env) cfg n s upcall_fcn upcall_data place op

    yields : Syscalls.yield_wait (fake_syscalls env) w1 ≡ returns (tt, w2)
    yields = fake_yield_wait env w1 ∙ yield_wait_runs env w1 k e es w2 hk he hq (calls _ ∙ runs)

    second :
        Call.poll (fake_syscalls env) cfg n s upcall_fcn upcall_data place op noop w2
        ≡ returns (ready r, w3)
    second =
        call_ready (fake_syscalls env) cfg n s upcall_fcn upcall_data place wake wakes op noop
          e.args _ w2 runs
        ∙ bind-returns (op.complete e.args) (λ r. pure (ready r)) completes

    args_left : (place.get w3).args ≡ some e.args
    args_left = ap (λ (x : CallState). x.args) keeps ∙ upcall-args place wake wakes e.args _ w2 runs

    dropped :
        let k' = subscribed n s k3 null_upcall d in
        (Call.drop (fake_syscalls env) cfg n s upcall_fcn upcall_data place op w3
          ≡ returns (tt, record w3 { kernel_data = some k' }))
        × All (λ e. id_eq e.id (the_id n s k3) ≡ false) k'.upcall_queue
        × ((args : Args) → schedule n s args k' ≡ returns (ok tt, k'))
    dropped =
        drop_lem env cfg n s upcall_fcn upcall_data place op w3 w3 k3 d
          (drop_with_ready place op.cancel e.args w3 args_left) hn hs hk3 he3 hd3 h3
