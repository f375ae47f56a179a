-- ===== src/Unittest/Syscalls/Subscribe.antt =====
-- unittest/src/fake/syscalls/subscribe_impl.rs
pub mod Effect
pub mod Swaps
use libtock_rs.Common.{
  ℕ, ◌&&◌, not, Option, none, some, List, retain, lookup, insert, leb, ◌==◌, if◌then◌else◌, Outcome,
  returns, panics, exits,
}
use libtock_rs.Platform.ErrorCode.{ErrorCode, no_device, invalid}
use libtock_rs.Platform.ReturnVariant
use libtock_rs.Unittest.KernelData.{
  KernelData, DriverData, Upcall, UpcallId, UpcallQueueEntry, id_eq, ExpectedSyscall,
  SyscallLogEntry,
}
use libtock_rs.Unittest.World.{M, ◌>>=◌, pure, with_kernel_data, expect_u32}
use libtock_rs.Unittest.Syscalls.Enter.{Registers4, enter, front, failure_registers}

-- The match on the expected system call.
unfoldable pub expect_subscribe : ℕ → ℕ → Option ExpectedSyscall → Outcome (Option ErrorCode)
expect_subscribe driver_num subscribe_num none = returns none
expect_subscribe driver_num subscribe_num (some (ExpectedSyscall.subscribe d s skip_with_error)) =
    if driver_num == d && subscribe_num == s then returns skip_with_error else panics
expect_subscribe driver_num subscribe_num (some _) = panics

-- The first closure: the error to skip with, and the driver's number of upcalls.
unfoldable pub subscribe_enter :
    ℕ → ℕ → KernelData → Outcome ((Option ErrorCode × Option ℕ) × KernelData)
unfolding expect_subscribe
subscribe_enter driver_num subscribe_num k =
    let k' = enter (SyscallLogEntry.subscribe driver_num subscribe_num) k in
    elim (expect_subscribe driver_num subscribe_num (front k.expected_syscalls)) [
      | panics ↦ panics
      | exits c ↦ exits c
      | returns skip ↦ elim (lookup driver_num k.drivers) [
        | none ↦ returns ((skip, none), k')
        | some d ↦ returns ((skip, some d.num_upcalls), k')
      ]
    ]

abbrev pub to_fn_pointer : ℕ → Option ℕ
to_fn_pointer upcall_fn = if upcall_fn == 0 then none else some upcall_fn

-- `upcall_queue.retain(|entry| entry.id != upcall_id)`
abbrev pub purge : UpcallId → List UpcallQueueEntry → List UpcallQueueEntry
purge id = retain (λ e. not (id_eq e.id id))

-- The second closure: purges the queue and stores the upcall; the old one is returned.
unfoldable pub subscribe_store :
    UpcallId → Upcall → KernelData → Outcome (Option Upcall × KernelData)
subscribe_store id u k = elim (lookup id.driver_num k.drivers) [
  | none ↦ panics
  | some d ↦
      let d' : DriverData = record d { upcalls = insert id.subscribe_num u d.upcalls } in
      returns (
        lookup id.subscribe_num d.upcalls,
        record k {
          upcall_queue = purge id k.upcall_queue;
          drivers = insert id.driver_num d' k.drivers;
        },
      )
]

abbrev pub fn_register : Option Upcall → ℕ
fn_register none = 0
fn_register (some u) = elim u.fn_pointer [ none ↦ 0 | some f ↦ f ]

abbrev pub payload_register : Option Upcall → ℕ
payload_register none = 0
payload_register (some u) = u.payload

-- What follows the first closure.
unfoldable pub subscribe_finish :
    {H : Type 0} → ℕ → ℕ → ℕ → ℕ → Option ErrorCode → Option ℕ → M H Registers4
unfolding subscribe_store
subscribe_finish driver_num subscribe_num upcall_fn payload (some error_code) num_upcalls =
    pure (failure_registers error_code upcall_fn payload)
subscribe_finish driver_num subscribe_num upcall_fn payload none none =
    pure (failure_registers no_device upcall_fn payload)
subscribe_finish driver_num subscribe_num upcall_fn payload none (some num_upcalls) =
    let id : UpcallId = record { driver_num = driver_num; subscribe_num = subscribe_num } in
    let u : Upcall = record { fn_pointer = to_fn_pointer upcall_fn; payload = payload } in
    let store = with_kernel_data (subscribe_store id u) in
    if leb num_upcalls subscribe_num then pure (failure_registers invalid upcall_fn payload) else do
      out ← store
      pure (ReturnVariant.success_2_u32, fn_register out, payload_register out, payload)

unfoldable pub subscribe : {H : Type 0} → ℕ → ℕ → ℕ → ℕ → M H Registers4
unfolding subscribe_enter subscribe_finish
subscribe r0 r1 upcall_fn payload = do
  driver_num ← expect_u32 r0
  subscribe_num ← expect_u32 r1
  found ← with_kernel_data (subscribe_enter driver_num subscribe_num)
  subscribe_finish driver_num subscribe_num upcall_fn payload found.0 found.1
