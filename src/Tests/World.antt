-- ===== src/Tests/World.antt =====
-- A test with one fake driver, as the tests under unittest/src set it up: what the other tests run on.
use libtock_rs.Common.{ℕ, refl, some, List, [], ◌∷◌, err, ◌>>=◌, pure}
use libtock_rs.Platform.ErrorCode.{no_support}
use libtock_rs.Platform.CommandReturn.{CommandReturn}
use libtock_rs.Platform.Syscalls.{Config}
use libtock_rs.Platform.AsyncCall.{Place, CallState, new_state, shared_upcall}
use libtock_rs.Unittest.CommandReturn.{success, failure}
use libtock_rs.Unittest.KernelData.{
  KernelData, DriverData, Upcall, UpcallQueueEntry, Args, ExpectedSyscall,
}
use libtock_rs.Unittest.World.{World, M, Env}
use libtock_rs.Unittest.ShareData.{schedule_upcall}

-- The state outside the kernel is that of one future.
abbrev pub place : Place (World CallState) CallState
place = record { get = λ w. w.host; put = λ s w. record w { host = s }; get-put = λ s w. refl }

abbrev pub wake : ℕ → M CallState (Unit {0})
wake waker = pure tt

-- The driver has one upcall, and its command 1 schedules it.
abbrev pub command : ℕ → ℕ → ℕ → ℕ → M CallState CommandReturn
command driver c a b = do r ← schedule_upcall 7 0 (a, b, 0); pure success

abbrev pub env : Env CallState
env = record {
  info = λ driver. record { driver_num = 7; upcall_count = 1 };
  register = λ driver n. pure tt;
  command = command;
  allow_readonly = λ driver n b. pure (err (b, no_support));
  allow_readwrite = λ driver n b. pure (err (b, no_support));
  upcall_fn = λ f args p. shared_upcall place wake args;
}

-- A driver that supports no command.
abbrev pub quiet : Env CallState
quiet = record {
  info = λ driver. record { driver_num = 7; upcall_count = 1 };
  register = λ driver n. pure tt;
  command = λ driver c a b. pure (failure no_support);
  allow_readonly = λ driver n b. pure (err (b, no_support));
  allow_readwrite = λ driver n b. pure (err (b, no_support));
  upcall_fn = λ f args p. pure tt;
}

abbrev pub cfg : Config (World CallState)
cfg = record {
  returned_nonnull_upcall = λ n s. pure tt;
  returned_nonzero_rw = λ n b. pure tt;
  returned_nonzero_ro = λ n b. pure tt;
}

abbrev pub upcall_3 : Upcall
upcall_3 = record { fn_pointer = some 3; payload = 4 }

abbrev pub driver_data : List (ℕ × Upcall) → DriverData
driver_data upcalls = record { driver = 0; num_upcalls = 1; upcalls = upcalls }

abbrev pub entry : Args → UpcallQueueEntry
entry args = record {
  args = args;
  id = record { driver_num = 7; subscribe_num = 0 };
  upcall = upcall_3;
}

abbrev pub kernel : List (ℕ × Upcall) → List UpcallQueueEntry → List ExpectedSyscall → KernelData
kernel upcalls queue expected = record {
  allow_db = [];
  create_location = 0;
  drivers = (7, driver_data upcalls) ∷ [];
  expected_syscalls = expected;
  syscall_log = [];
  upcall_queue = queue;
  memory_break = 0;
}

abbrev pub world : KernelData → World CallState
world k = record { kernel_data = some k; host = new_state }
