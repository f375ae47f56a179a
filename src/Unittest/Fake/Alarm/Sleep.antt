-- ===== src/Unittest/Fake/Alarm/Sleep.antt =====
-- The future `Sleep` of apis/peripherals/alarm/src/lib.rs under `block_on` of async/src/lib.rs, on the
-- fake kernel with the fake alarm of unittest/src/fake/alarm/mod.rs that fires as soon as it is set.
use libtock_rs.Common.{
  ℕ, All, ◌+◌, ◌%◌, ◌<◌, ◌^◌, ◌≡◌, ◌≢◌, refl, ◌∙◌, ap, false, none, some, [], ◌∷◌, lookup, insert,
  Result, ok, returns, arith, bind-returns, pure, ◌>>=◌, Option-cases, inl, inr, Run,
}
use libtock_rs.Platform.ErrorCode.{ErrorCode}
use libtock_rs.Platform.CommandReturn.Data
use libtock_rs.Platform.CommandReturn.Data.{to_result, failure_code}
use libtock_rs.Platform.Syscalls.{Config, subscribe_result}
use libtock_rs.Platform.Syscalls
use libtock_rs.Platform.AsyncCall.{
  Place, CallState, new_state, pending, set_started, and_then, modify, shared_upcall,
}
use libtock_rs.Platform.AsyncCall.Call
use libtock_rs.Platform.AsyncCall.Call.{Operation}
use libtock_rs.Platform.AsyncCall.Polls.{waiting, poll_of_new}
use libtock_rs.Async.{block_on, noop}
use libtock_rs.Apis.Alarm.{forget, sleep_op}
use libtock_rs.Unittest.CommandReturn.{success_u32}
use libtock_rs.Unittest.KernelData.{
  KernelData, DriverData, Upcall, UpcallQueueEntry, Args, SyscallLogEntry, id_eq,
}
use libtock_rs.Unittest.World.{World, Env, hosted}
use libtock_rs.Unittest.Syscalls.Enter.{enter, rest}
use libtock_rs.Unittest.Syscalls.Subscribe.{fn_register, purge}
use libtock_rs.Unittest.Syscalls.Subscribe.Effect.{subscribed, the_upcall, the_id, registered}
use libtock_rs.Unittest.Syscalls.Yield.{invoke}
use libtock_rs.Unittest.Fake.{fake_syscalls}
use libtock_rs.Unittest.Fake.Command.{command_routes}
use libtock_rs.Unittest.Fake.Results.{word-IsReturn, word-result}
use libtock_rs.Unittest.Fake.Subscribed as Subscribed
use libtock_rs.Unittest.Fake.Unsubscribe.{null_upcall}
use libtock_rs.Unittest.Fake.BlockOn.{block_on_call}
use libtock_rs.Unittest.Fake.Alarm.{Alarm, command}
use libtock_rs.Unittest.Fake.Alarm.Fires.{set_relative_fires}

module _ {H : Type 0} (env : Env H) (cfg : Config (World H)) (alarm : Place H Alarm)
    (call : Place H CallState) (fcn payload ticks : ℕ) (w : World H) (k : KernelData)
    (d : DriverData)
    (is_alarm : (c a b : ℕ) (v : World H) → env.command d.driver c a b v ≡ command alarm c a b v)
    (hk : w.kernel_data ≡ some k) (he : k.expected_syscalls ≡ []) (hd : lookup 0 k.drivers ≡ some d)
    (h : 0 < d.num_upcalls) (hn : lookup 0 d.upcalls ≡ none) (hq : k.upcall_queue ≡ [])
    (at_once : (alarm.get w.host).deferred ≡ false) (share : (alarm.get w.host).share_ref ≡ 0)
    (hf : fcn ≢ 0) (ht : ticks < 2 ^ 32) where
  abbrev u : Upcall
  u = the_upcall 0 0 fcn payload w k

  abbrev subscribed_kernel : KernelData
  subscribed_kernel = subscribed 0 0 k u d

  abbrev subscribed_world : World H
  subscribed_world = record w { kernel_data = some subscribed_kernel }

  unregistered : fn_register (lookup 0 d.upcalls) ≡ 0
  unregistered = ap fn_register hn

  subscribes :
      Syscalls.subscribe (fake_syscalls env) cfg 0 0 fcn payload w
      ≡ returns (ok tt, subscribed_world)
  subscribes =
      Subscribed.subscribes env cfg 0 0 fcn payload w k d (omega arith) (omega arith) hk he hd h
        unregistered

  abbrev data' : DriverData
  data' = record d { upcalls = insert 0 u d.upcalls }

  abbrev started_kernel : KernelData
  started_kernel = enter (SyscallLogEntry.command 0 5 ticks 0) subscribed_kernel

  abbrev started_world : World H
  started_world = record w { kernel_data = some started_kernel }

  abbrev expiry : ℕ
  expiry = ((alarm.get w.host).now + ticks) % 2 ^ 32

  abbrev the_upcall_entry : UpcallQueueEntry
  the_upcall_entry = record {
    args = (expiry, 0, 0);
    id = record { driver_num = 0; subscribe_num = 0 };
    upcall = record { fn_pointer = some fcn; payload = payload };
  }

  abbrev fired_kernel : KernelData
  fired_kernel = record started_kernel { upcall_queue = the_upcall_entry ∷ [] }

  abbrev fired_world : World H
  fired_world = record {
    kernel_data = some fired_kernel;
    host =
        alarm.put (record (alarm.get w.host) { now = expiry; expiration = none })
          (alarm.put (record (alarm.get w.host) { now = expiry; expiration = some expiry }) w.host);
  }

  now_present : lookup 0 subscribed_kernel.drivers ≡ some data'
  now_present =
      Subscribed.listens env cfg 0 0 fcn payload w k d (omega arith) (omega arith) hk he hd h
        unregistered

  no_expected : rest k.expected_syscalls ≡ []
  no_expected = ap rest he

  empty_queue : purge (the_id 0 0 k) k.upcall_queue ≡ []
  empty_queue =
      Subscribed.empty_queue env cfg 0 0 fcn payload w k d (omega arith) (omega arith) hk he hd h
        unregistered hq

  starts :
      Syscalls.command (fake_syscalls env) 0 5 ticks 0 subscribed_world
      ≡ returns (success_u32 expiry, fired_world)
  starts =
      command_routes env 0 5 ticks 0 subscribed_world subscribed_kernel (omega arith) (omega arith)
        ht (omega arith) refl data' (success_u32 expiry) fired_world no_expected now_present
        (is_alarm 5 ticks 0 started_world
          ∙ (set_relative_fires alarm ticks 0 started_world started_kernel data' fcn payload refl
              now_present h
              (Subscribed.registered_upcall env cfg 0 0 fcn payload w k d (omega arith)
                (omega arith) hk he hd h unregistered hf)
              empty_queue at_once share).0)
        (word-IsReturn expiry (omega arith))

  abbrev op : Operation (World H) (Unit {0})
  op = sleep_op (fake_syscalls env) ticks

  op_starts : op.start subscribed_world ≡ returns (ok tt, fired_world)
  op_starts =
      bind-returns (Syscalls.command (fake_syscalls env) 0 5 ticks 0)
        (λ r. pure (forget (to_result Data.success_u32 failure_code r))) starts
      ∙ ap (λ x. returns (forget x, fired_world)) (word-result expiry)

  abbrev begun_world : World H
  begun_world = (hosted call).put (set_started ((hosted call).get fired_world)) fired_world

  abbrev after_start : Result (Unit {0}) ErrorCode → Run (World H) (Result (Unit {0}) ErrorCode)
  after_start started = and_then started (modify (hosted call) set_started >>= λ _. pure (ok tt))

  begins :
      Call.begin (fake_syscalls env) cfg 0 0 fcn payload (hosted call) op w
      ≡ returns (ok tt, begun_world)
  unfolding Call.begin
  begins =
      bind-returns (Syscalls.subscribe (fake_syscalls env) cfg 0 0 fcn payload)
        (λ subscribed. and_then subscribed (op.start >>= after_start)) subscribes
      ∙ bind-returns op.start after_start op_starts

  module _ (apart : (a : Alarm) (v : H) → call.get (alarm.put a v) ≡ call.get v)
      (is_new : call.get w.host ≡ new_state)
      (calls : (args : Args) (v : World H)
        → env.upcall_fn fcn args payload v
          ≡ shared_upcall (hosted call) (λ _. pure tt) args v) where
    fired-new : call.get fired_world.host ≡ new_state
    fired-new = apart _ _ ∙ apart _ _ ∙ is_new

    begun-args : (call.get begun_world.host).args ≡ none
    begun-args =
        ap (λ (s : CallState). s.args)
          (call.get-put (set_started (call.get fired_world.host)) fired_world.host)
        ∙ ap (λ (s : CallState). s.args) fired-new

    first_poll :
        Call.poll (fake_syscalls env) cfg 0 0 fcn payload (hosted call) op noop w
        ≡ returns (pending, waiting (hosted call) op.complete noop begun_world)
    unfolding Call.poll
    first_poll =
        poll_of_new (hosted call) op.complete
          (Call.begin (fake_syscalls env) cfg 0 0 fcn payload (hosted call) op) noop w begun_world
          (ap (λ (s : CallState). s.args) is_new) (ap (λ (s : CallState). s.started) is_new) begins
          begun-args

    -- The kernel's data in the yield, and the world before the upcall.
    abbrev yielding : World H
    yielding = record (waiting (hosted call) op.complete noop begun_world) {
      kernel_data =
          some (record (enter SyscallLogEntry.yield_wait fired_kernel) { upcall_queue = [] });
    }

    -- The world in which the upcall has stored its arguments.
    abbrev called : Args → World H → World H
    called args v =
        (hosted call).put (record (call.get v.host) { args = some args; waker = none }) v

    silent_upcall :
        (args : Args) (v : World H)
        → shared_upcall (hosted call) (λ _. pure tt) args v ≡ returns (tt, called args v)
    unfolding shared_upcall
    silent_upcall args v = elim (Option-cases (call.get v.host).waker) [
      | inl e ↦ rw (e, shared_upcall) refl
      | inr (waker, e) ↦ rw (e, shared_upcall) refl
    ]

    runs_upcall :
        (args : Args) (v : World H)
        → invoke env (record { fn_pointer = some fcn; payload = payload }) args v
          ≡ shared_upcall (hosted call) (λ _. pure tt) args v
    unfolding invoke
    runs_upcall args v = calls args v

    abbrev done : World H
    done = called (expiry, 0, 0) yielding

    -- The kernel's data when the sleep is dropped, and when the drop has unsubscribed.
    abbrev done_kernel : KernelData
    done_kernel = record (enter SyscallLogEntry.yield_wait fired_kernel) { upcall_queue = [] }

    abbrev dropped_kernel : KernelData
    dropped_kernel = subscribed 0 0 done_kernel null_upcall data'

    -- A sleep ends: `block_on` of a new `Sleep` returns `Ok` with two polls of fuel, and the sleep is
    -- dropped, which leaves the null upcall with the kernel and none of the alarm's in its queue. The
    -- alarm driver is a fake alarm that fires as soon as it is set; nothing is registered with it or
    -- queued, no system call is expected, the upcall is not null, the ticks fit in 32 bits, and the
    -- states of the alarm and of the future are apart.
    pub sleep_returns :
        (fuel : ℕ)
        → (block_on
              (fake_syscalls env)
              (fuel + 2)
              (Call.future (fake_syscalls env) cfg 0 0 fcn payload (hosted call) op)
              w
            ≡ returns (some (ok tt), record done { kernel_data = some dropped_kernel }))
          × All (λ e. id_eq e.id (the_id 0 0 done_kernel) ≡ false) dropped_kernel.upcall_queue
          × (registered 0 0 dropped_kernel.drivers ≡ some null_upcall)
    sleep_returns fuel =
        block_on_call env cfg 0 0 fcn payload fuel (hosted call) op (λ _. pure tt)
          (λ waker v v' e. ground arith) w (waiting (hosted call) op.complete noop begun_world) done
          done fired_kernel done_kernel data' the_upcall_entry [] (ok tt) first_poll refl
          (ap (λ es. rest (rest es)) he) refl (runs_upcall (expiry, 0, 0))
          (silent_upcall (expiry, 0, 0) yielding) refl refl (omega arith) (omega arith) refl
          (ap (λ es. rest (rest (rest es))) he) now_present h
