-- ===== src/Unittest/Fake/Unsubscribe.antt =====
-- `unsubscribe` of platform/src/syscalls_impl.rs on the fake kernel. `Subscribe` calls it when it is
-- dropped, after which the memory of the upcall may go.
use libtock_rs.Common.{
  ℕ, ◌<◌, ◌^◌, ◌≡◌, ◌&&◌, false, none, some, [], lookup, insert, lookup-insert, All, ◌==◌,
  if◌then◌else◌, ok, returns, arith, bind-returns,
}
use libtock_rs.Platform.Syscalls.{unsubscribe}
use libtock_rs.Unittest.KernelData.{KernelData, DriverData, Upcall, id_eq, is_null, Args}
use libtock_rs.Unittest.World.{World, Env}
use libtock_rs.Unittest.ShareData.{schedule}
use libtock_rs.Unittest.Syscalls.Subscribe.{subscribe}
use libtock_rs.Unittest.Syscalls.Subscribe.Effect.{
  registered, registered-stored, purge_lem, the_id, subscribed, subscribe_succeeds,
}
use libtock_rs.Unittest.Syscalls.Raw.{syscall4}
use libtock_rs.Unittest.Fake.{fake_syscalls}

-- The null upcall, as `unsubscribe` passes it.
abbrev pub null_upcall : Upcall
null_upcall = record { fn_pointer = none; payload = 0 }

schedule_null :
    (n s : ℕ) (k : KernelData) (d : DriverData) (args : Args)
    → lookup n k.drivers ≡ some d
    → s < d.num_upcalls
    → schedule n s args (subscribed n s k null_upcall d)
      ≡ returns (ok tt, subscribed n s k null_upcall d)
unfolding schedule is_null
schedule_null n s k d args hd h = ground (
  arith,
  lookup-insert n n (record d { upcalls = insert s null_upcall d.upcalls }) k.drivers,
  lookup-insert s s null_upcall d.upcalls,
)

-- After `unsubscribe` no queued upcall has the number, scheduling an upcall under it changes nothing,
-- and the upcalls registered under other numbers are as before. The driver exists and the number is
-- in its range; no system call is expected.
pub unsubscribe_lem :
    {H : Type 0} (env : Env H) (n s : ℕ) (w : World H) (k : KernelData) (d : DriverData)
    → n < 2 ^ 32
    → s < 2 ^ 32
    → w.kernel_data ≡ some k
    → k.expected_syscalls ≡ []
    → lookup n k.drivers ≡ some d
    → s < d.num_upcalls
    → let k' = subscribed n s k null_upcall d in
      (unsubscribe (fake_syscalls env) n s w ≡ returns (tt, record w { kernel_data = some k' }))
      × All (λ e. id_eq e.id (the_id n s k) ≡ false) k'.upcall_queue
      × ((args : Args) → schedule n s args k' ≡ returns (ok tt, k'))
      × ((n' s' : ℕ)
          → registered n' s' k'.drivers
            ≡ (if n == n' && s == s' then some null_upcall else registered n' s' k.drivers))
unfolding unsubscribe syscall4
unsubscribe_lem env n s w k d hn hs hk he hd h = (
  bind-returns (subscribe n s 0 0) _ (subscribe_succeeds n s 0 0 w k hn hs hk he d hd h),
  purge_lem (the_id n s k) k.upcall_queue,
  λ args. schedule_null n s k d args hd h,
  λ n' s'. registered-stored (the_id n s k) null_upcall d k.drivers n' s' hd,
)
