-- ===== src/Unittest/Kernel.antt =====
-- unittest/src/fake/kernel.rs: the interface of `fake::Kernel` to a test.
pub mod Invariant
use libtock_rs.Common.{
  ℕ, Bool, true, false, Option, none, some, List, [], ◌∷◌, ◌++◌, lookup, insert, Outcome, returns,
  panics,
}
use libtock_rs.Unittest.KernelData.{KernelData, DriverData, ExpectedSyscall, SyscallLogEntry}
use libtock_rs.Unittest.World.{World, M, Env, ◌>>=◌, ◌>>◌, with_kernel_data}

abbrev pub empty_kernel : ℕ → KernelData
empty_kernel location = record {
  allow_db = [];
  create_location = location;
  drivers = [];
  expected_syscalls = [];
  syscall_log = [];
  upcall_queue = [];
  memory_break = 0;
}

-- `Kernel::new`, called at a location: panics if there is a kernel already.
unfoldable pub new : {H : Type 0} → ℕ → M H (Unit {0})
new location w = elim w.kernel_data [
  | none ↦ returns (tt, record w { kernel_data = some (empty_kernel location) })
  | some _ ↦ panics
]

-- `HashMap::insert`, which returns the old value, and the assertion that there was none.
unfoldable pub insert_driver : ℕ → DriverData → KernelData → Outcome (Unit {0} × KernelData)
insert_driver driver_num data' k = elim (lookup driver_num k.drivers) [
  | none ↦ returns (tt, record k { drivers = insert driver_num data' k.drivers })
  | some _ ↦ panics
]

unfoldable pub add_driver : {H : Type 0} → Env H → ℕ → M H (Unit {0})
unfolding insert_driver
add_driver env driver =
    let info = env.info driver in
    let driver_data : DriverData = record {
      driver = driver;
      num_upcalls = info.upcall_count;
      upcalls = [];
    } in
    do
      with_kernel_data (insert_driver info.driver_num driver_data)
      env.register driver info.driver_num

abbrev pub push_expected : ExpectedSyscall → KernelData → Outcome (Unit {0} × KernelData)
push_expected e k = returns (tt, record k { expected_syscalls = k.expected_syscalls ++ e ∷ [] })

unfoldable pub add_expected_syscall : {H : Type 0} → ExpectedSyscall → M H (Unit {0})
add_expected_syscall e = with_kernel_data (push_expected e)

abbrev pub take_log : KernelData → Outcome (List SyscallLogEntry × KernelData)
take_log k = returns (k.syscall_log, record k { syscall_log = [] })

unfoldable pub take_syscall_log : {H : Type 0} → M H (List SyscallLogEntry)
take_syscall_log = with_kernel_data take_log

unfoldable pub is_driver_present : {H : Type 0} → ℕ → World H → Bool
is_driver_present driver_num w = elim w.kernel_data [
  | none ↦ false
  | some k ↦ elim (lookup driver_num k.drivers) [ none ↦ false | some _ ↦ true ]
]

unfoldable pub is_upcall_pending : {H : Type 0} → World H → Bool
is_upcall_pending w = elim w.kernel_data [
  | none ↦ false
  | some k ↦ elim k.upcall_queue [ [] ↦ false | e ∷ es ↦ true ]
]

-- `Drop for Kernel`
unfoldable pub drop : {H : Type 0} → World H → World H
drop w = record w { kernel_data = none }
