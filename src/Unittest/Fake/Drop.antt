-- ===== src/Unittest/Fake/Drop.antt =====
-- `Drop` of the `Call` of platform/src/async_call.rs on the fake kernel.
use libtock_rs.Common.{
  ℕ, ◌<◌, ◌^◌, ◌≡◌, false, some, [], lookup, All, ok, returns, bind-returns, ◌∙◌,
}
use libtock_rs.Platform.Syscalls.{Config}
use libtock_rs.Platform.Syscalls
use libtock_rs.Platform.AsyncCall.{Place, CallState, drop_with}
use libtock_rs.Platform.AsyncCall.Call
use libtock_rs.Platform.AsyncCall.Call.{Operation}
use libtock_rs.Unittest.KernelData.{KernelData, DriverData, id_eq, Args}
use libtock_rs.Unittest.World.{World, Env}
use libtock_rs.Unittest.ShareData.{schedule}
use libtock_rs.Unittest.Syscalls.Subscribe.Effect.{the_id, subscribed}
use libtock_rs.Unittest.Fake.{fake_syscalls}
use libtock_rs.Unittest.Fake.Unsubscribe.{unsubscribe_lem, null_upcall}

-- A `Call` that has been dropped is out of the kernel's reach: no queued upcall has its number, and
-- scheduling one changes nothing, so the memory of its state is never written again. The cancelling
-- has returned, in a world where the driver exists with the upcall's number in its range, and no
-- system call is expected.
pub drop_lem :
    {H V : Type 0} (env : Env H) (cfg : Config (World H)) (n s upcall_fcn upcall_data : ℕ)
    (place : Place (World H) CallState) (op : Operation (World H) V) (w v : World H)
    (k : KernelData) (d : DriverData)
    → drop_with place op.cancel w ≡ returns (tt, v)
    → n < 2 ^ 32
    → s < 2 ^ 32
    → v.kernel_data ≡ some k
    → k.expected_syscalls ≡ []
    → lookup n k.drivers ≡ some d
    → s < d.num_upcalls
    → let k' = subscribed n s k null_upcall d in
      (Call.drop (fake_syscalls env) cfg n s upcall_fcn upcall_data place op w
        ≡ returns (tt, record v { kernel_data = some k' }))
      × All (λ e. id_eq e.id (the_id n s k) ≡ false) k'.upcall_queue
      × ((args : Args) → schedule n s args k' ≡ returns (ok tt, k'))
unfolding Call.drop
drop_lem env cfg n s upcall_fcn upcall_data place op w v k d cancels hn hs hk he hd h =
    let (unsubscribes, none_queued, none_scheduled, _) =
      unsubscribe_lem env n s v k d hn hs hk he hd h in
    (
      bind-returns (drop_with place op.cancel) (λ _. Syscalls.unsubscribe (fake_syscalls env) n s)
            cancels
          ∙ unsubscribes,
      none_queued,
      none_scheduled,
    )
