-- ===== src/Tests/Hosts.antt =====
-- What the tests of the blocking calls share: a host that is a driver's state and a cell, and a kernel
-- with one driver.
use libtock_rs.Common.{ℕ, refl, ◌≢◌, Option, [], ◌∷◌, err, pure, arith}
use libtock_rs.Platform.ErrorCode.{no_support}
use libtock_rs.Platform.CommandReturn.{CommandReturn}
use libtock_rs.Platform.Syscalls.{Config}
use libtock_rs.Platform.AsyncCall.{Place}
use libtock_rs.Unittest.KernelData.{KernelData, DriverData, DriverInfo, Args}
use libtock_rs.Unittest.World.{World, M, Env}

-- A host of a driver's state and a cell.
abbrev pub driver_place : {S V : Type 0} → Place (S × Option V) S
driver_place = record { get = λ h. h.0; put = λ s h. (s, h.1); get-put = λ s h. refl }

abbrev pub cell_place : {S V : Type 0} → Place (S × Option V) (Option V)
cell_place = record { get = λ h. h.1; put = λ o h. (h.0, o); get-put = λ o h. refl }

abbrev pub env :
    {H : Type 0} → DriverInfo → (ℕ → ℕ → ℕ → M H CommandReturn) → (Args → M H (Unit {0})) → Env H
env info command listener = record {
  info = λ driver. info;
  register = λ driver n. pure tt;
  command = λ driver. command;
  allow_readonly = λ driver n b. pure (err (b, no_support));
  allow_readwrite = λ driver n b. pure (err (b, no_support));
  upcall_fn = λ f args p. listener args;
}

abbrev pub cfg : {H : Type 0} → Config (World H)
cfg = record {
  returned_nonnull_upcall = λ n s. pure tt;
  returned_nonzero_rw = λ n b. pure tt;
  returned_nonzero_ro = λ n b. pure tt;
}

abbrev pub data' : DriverData
data' = record { driver = 0; num_upcalls = 1; upcalls = [] }

abbrev pub kernel : ℕ → KernelData
kernel n = record {
  allow_db = [];
  create_location = 0;
  drivers = (n, data') ∷ [];
  expected_syscalls = [];
  syscall_log = [];
  upcall_queue = [];
  memory_break = 0;
}

pub nine : ◌≢◌ {A = ℕ} 9 0
nine e = absurd (omega (arith, e))
