-- ===== src/Tests/Futures.antt =====
-- Tests of platform/src/async_call.rs and async/src/lib.rs on the fake kernel.
use libtock_rs.Common.{
  ℕ, ◌<◌, ◌≡◌, refl, true, false, none, some, List, [], ◌∷◌, All, Result, ok, returns, ◌>>=◌, pure,
  arith,
}
use libtock_rs.Platform.ErrorCode.{ErrorCode}
use libtock_rs.Platform.Syscalls
use libtock_rs.Platform.AsyncCall.{
  Future, ready, pending, CallState, shared_upcall, store_waker, poll_args, poll_end, poll_with,
  drop_with,
}
use libtock_rs.Platform.AsyncCall.Call
use libtock_rs.Platform.AsyncCall.Call.{Operation}
use libtock_rs.Platform.AsyncCall.BufferedCall
use libtock_rs.Platform.AsyncCall.BufferedCall.{BufferedOperation}
use libtock_rs.Platform.AsyncCall.States.{buffered_ready}
use libtock_rs.Async.{block_on}
use libtock_rs.Async.BlockOn.{Rounds, last, round, block_on_returns, block_on-Rounds}
use libtock_rs.Unittest.KernelData.{KernelData, SyscallLogEntry, Args, id_eq}
use libtock_rs.Unittest.World.{World}
use libtock_rs.Unittest.ShareData.{schedule, schedule_upcall, enqueue}
use libtock_rs.Unittest.Syscalls.Enter.{enter}
use libtock_rs.Unittest.Syscalls.Raw
use libtock_rs.Unittest.Syscalls.Yield
use libtock_rs.Unittest.Syscalls.Yield.{invoke}
use libtock_rs.Unittest.Syscalls.Allow
use libtock_rs.Unittest.AllowDb
use libtock_rs.Unittest.Syscalls.Subscribe
use libtock_rs.Unittest.Syscalls.Command
use libtock_rs.Unittest.Syscalls.Subscribe.Effect.{the_id, subscribed, registered}
use libtock_rs.Unittest.Fake.{fake_syscalls}
use libtock_rs.Unittest.Fake.Unsubscribe.{null_upcall}
use libtock_rs.Unittest.Fake.Drop.{drop_lem}
use libtock_rs.Unittest.Fake.BlockOn.{block_on_call}
use libtock_rs.Tests.World.{env, cfg, place, wake, upcall_3, driver_data, entry, kernel, world}

-- An operation whose command schedules the upcall at once.
abbrev op : Operation (World CallState) Args
op = record {
  start = do
    r ← Syscalls.command (fake_syscalls env) 7 1 5 6
    pure (ok tt);
  cancel = pure tt;
  complete = λ args. pure (ok args);
}

abbrev call : Future (World CallState) (Result Args ErrorCode)
call = Call.future (fake_syscalls env) cfg 7 0 3 4 place op

-- The kernel after the call has subscribed and started.
abbrev begun_kernel : KernelData
begun_kernel = record (kernel ((0, upcall_3) ∷ []) (entry (5, 6, 0) ∷ []) []) {
  syscall_log = SyscallLogEntry.subscribe 7 0 ∷ SyscallLogEntry.command 7 1 5 6 ∷ [];
}

abbrev begun : World CallState
begun = record {
  kernel_data = some begun_kernel;
  host = record { args = none; waker = some 0; started = true };
}

first_poll : call.poll 0 (world (kernel [] [] [])) ≡ returns (pending, begun)
unfolding Call.poll Call.begin poll_with poll_args poll_end store_waker Syscalls.subscribe
    Syscalls.subscribe_result Syscalls.command Syscalls.command_result Raw.syscall4
    Subscribe.subscribe Subscribe.subscribe_enter Subscribe.expect_subscribe
    Subscribe.subscribe_finish Subscribe.subscribe_store Command.command Command.command_enter
    Command.driver_return schedule_upcall schedule enqueue
first_poll = refl

-- The world after the upcall.
abbrev finished : World CallState
finished = record {
  kernel_data = some (enter SyscallLogEntry.yield_wait (record begun_kernel { upcall_queue = [] }));
  host = record { args = some (5, 6, 0); waker = none; started = true };
}

the_yield : Syscalls.yield_wait (fake_syscalls env) begun ≡ returns (tt, finished)
unfolding Syscalls.yield_wait Raw.yield1 Yield.yield_wait Yield.yield_wait_enter
    Yield.expect_yield_wait Yield.invoke_next_upcall Yield.pop_queue Yield.invoke_entry invoke
    shared_upcall
the_yield = refl

second_poll : call.poll 0 finished ≡ returns (ready (ok (5, 6, 0)), finished)
unfolding Call.poll poll_with poll_args
second_poll = refl

-- The kernel, and the world, when the call has been dropped.
abbrev finished_kernel : KernelData
finished_kernel = enter SyscallLogEntry.yield_wait (record begun_kernel { upcall_queue = [] })

abbrev dropped_kernel : KernelData
dropped_kernel =
    enter (SyscallLogEntry.subscribe 7 0)
      (record finished_kernel { drivers = (7, driver_data ((0, null_upcall) ∷ [])) ∷ [] })

abbrev dropped : World CallState
dropped = record finished { kernel_data = some dropped_kernel }

drops : call.drop finished ≡ returns (tt, dropped)
drops =
    (drop_lem env cfg 7 0 3 4 place op finished finished finished_kernel
      (driver_data ((0, upcall_3) ∷ [])) (unfold drop_with in refl) (omega arith) (omega arith) refl
      refl refl (omega arith)).0

block_on_returns_example :
    block_on (fake_syscalls env) 2 call (world (kernel [] [] []))
    ≡ returns (some (ok (5, 6, 0)), dropped)
block_on_returns_example =
    block_on_returns (fake_syscalls env) call 2 1 (ok (5, 6, 0)) (world (kernel [] [] [])) finished
      dropped
      (round 0 (ok (5, 6, 0)) (world (kernel [] [] [])) begun finished finished first_poll the_yield
        (last (ok (5, 6, 0)) finished finished second_poll))
      drops (omega arith)

block_on-Rounds_example :
    (n : ℕ) × (v : World CallState) × (n < 2)
    × Rounds (fake_syscalls env) call n (ok (5, 6, 0)) (world (kernel [] [] [])) v
    × (call.drop v ≡ returns (tt, dropped))
block_on-Rounds_example =
    block_on-Rounds (fake_syscalls env) call 2 (ok (5, 6, 0)) (world (kernel [] [] [])) dropped
      block_on_returns_example

silent :
    (waker : ℕ) (v v' : World CallState)
    → wake waker v ≡ returns (tt, v')
    → place.get v' ≡ place.get v
silent waker v v' h = ground arith

upcall_runs :
    (v : World CallState) → invoke env upcall_3 (5, 6, 0) v ≡ shared_upcall place wake (5, 6, 0) v
unfolding invoke
upcall_runs v = refl

stores :
    shared_upcall place wake
      (5, 6, 0)
      (record begun {
        kernel_data =
            some (enter SyscallLogEntry.yield_wait (record begun_kernel { upcall_queue = [] }));
      })
    ≡ returns (tt, finished)
unfolding shared_upcall
stores = refl

block_on_call_example :
    (block_on (fake_syscalls env) 2 call (world (kernel [] [] []))
      ≡ returns (some (ok (5, 6, 0)), dropped))
    × All (λ e. id_eq e.id (the_id 7 0 finished_kernel) ≡ false) dropped_kernel.upcall_queue
    × (registered 7 0 dropped_kernel.drivers ≡ some null_upcall)
block_on_call_example =
    block_on_call env cfg 7 0 3 4 0 place op wake silent (world (kernel [] [] [])) begun finished
      finished begun_kernel finished_kernel (driver_data ((0, upcall_3) ∷ [])) (entry (5, 6, 0)) []
      (ok (5, 6, 0)) first_poll refl refl refl upcall_runs stores refl refl (omega arith)
      (omega arith) refl refl refl (omega arith)

drop_lem_example :
    let k' = subscribed 7 0 begun_kernel null_upcall (driver_data ((0, upcall_3) ∷ [])) in
    (Call.drop (fake_syscalls env) cfg 7 0 3 4 place op begun
      ≡ returns (tt, record begun { kernel_data = some k' }))
    × All (λ e. id_eq e.id (the_id 7 0 begun_kernel) ≡ false) k'.upcall_queue
    × ((args : Args) → schedule 7 0 args k' ≡ returns (ok tt, k'))
drop_lem_example =
    drop_lem env cfg 7 0 3 4 place op begun begun begun_kernel (driver_data ((0, upcall_3) ∷ []))
      (unfold drop_with in refl) (omega arith) (omega arith) refl refl refl (omega arith)

abbrev buffered_op : BufferedOperation (World CallState) (List ℕ)
buffered_op = record {
  start = λ len. pure (ok tt);
  cancel = pure tt;
  complete = λ args buffer. pure (ok buffer);
}

abbrev bytes : World CallState → List ℕ
bytes w = 1 ∷ 2 ∷ []

abbrev buffered : Future (World CallState) (Result (List ℕ) ErrorCode)
buffered = BufferedCall.future (fake_syscalls env) cfg 7 0 1 3 4 64 2 place bytes buffered_op

abbrev given_back : World CallState
given_back = record finished {
  kernel_data = some (
      enter (SyscallLogEntry.allow_rw 7 1 0)
        (enter SyscallLogEntry.yield_wait (record begun_kernel { upcall_queue = [] })));
}

unallows : Syscalls.unallow_rw (fake_syscalls env) 7 1 finished ≡ returns (tt, given_back)
unfolding Syscalls.unallow_rw Raw.syscall4 Allow.allow_rw Allow.allow_rw_enter Allow.allow_rw_finish
    Allow.allow_rw_leave Allow.expect_allow_rw AllowDb.insert_rw_buffer AllowDb.remove_rw_buffer
    AllowDb.remove
unallows = refl

buffered_ready_example : buffered.poll 1 finished ≡ returns (ready (ok (1 ∷ 2 ∷ [])), given_back)
buffered_ready_example =
    buffered_ready (fake_syscalls env) cfg 7 0 1 3 4 64 2 place bytes buffered_op wake silent 1
      (5, 6, 0)
      (record begun {
        kernel_data =
            some (enter SyscallLogEntry.yield_wait (record begun_kernel { upcall_queue = [] }));
      })
      finished given_back given_back (ok (1 ∷ 2 ∷ [])) stores unallows refl
