-- ===== src/Tests/Calls.antt =====
-- Tests of unittest/src/fake/syscalls: Subscribe and Command.
use libtock_rs.Common.{
  ℕ, none, ◌++◌, ◌≡◌, refl, ◌==◌, ◌&&◌, if◌then◌else◌, false, some, List, [], ◌∷◌, All, ok, returns,
  arith,
}
use libtock_rs.Platform.ReturnVariant
use libtock_rs.Platform.AsyncCall.{CallState}
use libtock_rs.Platform.Syscalls
use libtock_rs.Unittest.CommandReturn.{success}
use libtock_rs.Unittest.KernelData.{
  KernelData, ExpectedSyscall, SyscallLogEntry, Args, UpcallQueueEntry, id_eq,
}
use libtock_rs.Unittest.World.{World}
use libtock_rs.Unittest.ShareData.{schedule, schedule_upcall, enqueue}
use libtock_rs.Unittest.Syscalls.Enter.{Registers4, enter}
use libtock_rs.Unittest.Syscalls.Subscribe.{subscribe}
use libtock_rs.Unittest.Syscalls.Subscribe.Swaps.{subscribe_swaps}
use libtock_rs.Unittest.Syscalls.Subscribe.Effect.{registered, subscribed, the_id}
use libtock_rs.Unittest.Fake.{fake_syscalls}
use libtock_rs.Unittest.Fake.Command.{IsReturn, command_routes}
use libtock_rs.Unittest.Fake.Unsubscribe.{unsubscribe_lem, null_upcall}
use libtock_rs.Tests.World.{env, upcall_3, driver_data, entry, kernel, world}

-- The upcall is registered and one is queued.
abbrev ready_kernel : KernelData
ready_kernel = kernel ((0, upcall_3) ∷ []) (entry (1, 2, 0) ∷ []) []

abbrev logged : SyscallLogEntry → List ExpectedSyscall → World CallState
logged e expected = world (enter e (kernel [] [] expected))

success-IsReturn : IsReturn success
unfolding success
success-IsReturn =
    (omega arith, record { word_1 = omega arith; word_2 = omega arith; word_3 = omega arith })

-- Command 1 of the test's driver, with nothing registered: scheduling the upcall does nothing.
command_routes_example :
    Syscalls.command (fake_syscalls env) 7 1 5 6 (world (kernel [] [] []))
    ≡ returns (success, logged (SyscallLogEntry.command 7 1 5 6) [])
command_routes_example =
    command_routes env 7 1 5 6 (world (kernel [] [] [])) (kernel [] [] []) (omega arith)
      (omega arith) (omega arith) (omega arith) refl (driver_data []) success
      (logged (SyscallLogEntry.command 7 1 5 6) []) refl refl
      (unfold schedule_upcall schedule enqueue in refl) success-IsReturn

-- The upcall with the function 9 replaces that with the function 3, and the null upcall replaces it.
subscribe_swaps_example :
    (r : Registers4) × (v : World CallState) × (v' : World CallState) × (k' : KernelData)
    × (subscribe 7 0 9 8 (world ready_kernel) ≡ returns (r, v))
    × (subscribe 7 0 0 5 v ≡ returns ((ReturnVariant.success_2_u32, 9, 8, 5), v'))
    × (v' ≡ world k')
    × ((n' s' : ℕ)
        → registered n' s' k'.drivers ≡ (
            if 7 == n' && 0 == s'
            then some (record { fn_pointer = none; payload = 5 })
            else registered n' s' ready_kernel.drivers))
    × All (λ e. id_eq e.id (record { driver_num = 7; subscribe_num = 0 }) ≡ false) k'.upcall_queue
    × ((P : UpcallQueueEntry → Type 0) → All P ready_kernel.upcall_queue → All P k'.upcall_queue)
    × ((P : UpcallQueueEntry → Type 0)
        → All P k'.upcall_queue
        → All
            (λ e. id_eq e.id (record { driver_num = 7; subscribe_num = 0 }) ≡ false → P e)
            ready_kernel.upcall_queue)
    × (k'.syscall_log
        ≡ ready_kernel.syscall_log
          ++ SyscallLogEntry.subscribe 7 0 ∷ SyscallLogEntry.subscribe 7 0 ∷ [])
subscribe_swaps_example =
    subscribe_swaps 7 0 9 8 0 5 (world ready_kernel) ready_kernel (driver_data ((0, upcall_3) ∷ []))
      (omega arith) (omega arith) refl refl refl (omega arith)

unsubscribe_lem_example :
    let k' = subscribed 7 0 ready_kernel null_upcall (driver_data ((0, upcall_3) ∷ [])) in
    (Syscalls.unsubscribe (fake_syscalls env) 7 0 (world ready_kernel) ≡ returns (tt, world k'))
    × All (λ e. id_eq e.id (the_id 7 0 ready_kernel) ≡ false) k'.upcall_queue
    × ((args : Args) → schedule 7 0 args k' ≡ returns (ok tt, k'))
    × ((n' s' : ℕ)
        → registered n' s' k'.drivers ≡ (
            if 7 == n' && 0 == s' then some null_upcall else registered n' s' ready_kernel.drivers))
unsubscribe_lem_example =
    unsubscribe_lem env 7 0 (world ready_kernel) ready_kernel (driver_data ((0, upcall_3) ∷ []))
      (omega arith) (omega arith) refl refl refl (omega arith)
