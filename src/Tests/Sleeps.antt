-- ===== src/Tests/Sleeps.antt =====
-- A sleep of ten ticks, from async/src/lib.rs down to unittest/src/fake/alarm/mod.rs.
use libtock_rs.Common.{
  ℕ, ◌≡◌, refl, ◌≢◌, true, false, some, none, List, [], ◌∷◌, ok, err, returns, pure, arith,
}
use libtock_rs.Platform.ErrorCode.{no_support}
use libtock_rs.Platform.Syscalls.{Config}
use libtock_rs.Platform.AsyncCall.{Place, CallState, new_state, shared_upcall, store_waker}
use libtock_rs.Platform.AsyncCall.Call
use libtock_rs.Async.{block_on}
use libtock_rs.Apis.Alarm.{sleep_op}
use libtock_rs.Unittest.KernelData.{KernelData, DriverData, SyscallLogEntry, Upcall}
use libtock_rs.Unittest.World.{World, Env, hosted}
use libtock_rs.Unittest.Syscalls.Subscribe.Effect.{registered}
use libtock_rs.Unittest.Fake.{fake_syscalls}
use libtock_rs.Unittest.Fake.Unsubscribe.{null_upcall}
use libtock_rs.Unittest.Fake.Alarm.{Alarm, build, info, register, command}
use libtock_rs.Unittest.Fake.Alarm.Sleep.{sleep_returns}

-- The state of the alarm and that of the future.
abbrev Host : Type 0
Host = Alarm × CallState

abbrev alarm : Place Host Alarm
alarm = record { get = λ h. h.0; put = λ a h. (a, h.1); get-put = λ a h. refl }

abbrev call : Place Host CallState
call = record { get = λ h. h.1; put = λ s h. (h.0, s); get-put = λ s h. refl }

abbrev env : Env Host
env = record {
  info = λ driver. info;
  register = λ driver n. register alarm n;
  command = λ driver c a b. command alarm c a b;
  allow_readonly = λ driver n b. pure (err (b, no_support));
  allow_readwrite = λ driver n b. pure (err (b, no_support));
  upcall_fn = λ f args p. shared_upcall (hosted call) (λ _. pure tt) args;
}

abbrev cfg : Config (World Host)
cfg = record {
  returned_nonnull_upcall = λ n s. pure tt;
  returned_nonzero_rw = λ n b. pure tt;
  returned_nonzero_ro = λ n b. pure tt;
}

abbrev data' : List (ℕ × Upcall) → DriverData
data' upcalls = record { driver = 0; num_upcalls = 1; upcalls = upcalls }

abbrev kernel : List (ℕ × Upcall) → List SyscallLogEntry → KernelData
kernel upcalls log = record {
  allow_db = [];
  create_location = 0;
  drivers = (0, data' upcalls) ∷ [];
  expected_syscalls = [];
  syscall_log = log;
  upcall_queue = [];
  memory_break = 0;
}

abbrev start : World Host
start = record { kernel_data = some (kernel [] []); host = (build 1000 false, new_state) }

abbrev end : World Host
end = record {
  kernel_data = some (
      kernel ((0, null_upcall) ∷ []) (
        SyscallLogEntry.subscribe 0 0
        ∷ SyscallLogEntry.command 0 5 10 0
        ∷ SyscallLogEntry.yield_wait
        ∷ SyscallLogEntry.subscribe 0 0
        ∷ []));
  host = (
    record (build 1000 false) { now = 10 },
    record { args = some (10, 0, 0); waker = none; started = true },
  );
}

nine : ◌≢◌ {A = ℕ} 9 0
nine e = absurd (omega (arith, e))

sleep_returns_example :
    (block_on
        (fake_syscalls env)
        2
        (Call.future
          (fake_syscalls env)
          cfg
          0
          0
          9
          1
          (hosted call)
          (sleep_op (fake_syscalls env) 10))
        start
      ≡ returns (some (ok tt), end))
    × Unit {0}
    × (registered 0 0 ((0, data' ((0, null_upcall) ∷ [])) ∷ []) ≡ some null_upcall)
unfolding store_waker
sleep_returns_example =
    sleep_returns env cfg alarm call 9 1 10 start (kernel [] []) (data' []) (λ c a b v. refl) refl
      refl refl (omega arith) refl refl refl refl nine (omega arith) (λ a v. refl) refl
      (λ args v. refl) 0
