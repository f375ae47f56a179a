-- ===== src/Unittest/Fake/Subscribed.antt =====
-- `subscribe` of platform/src/syscalls_impl.rs on the fake kernel, under a number of a driver that has no
-- upcall there yet, and what scheduling an upcall does then (unittest/src/share_data.rs).
use libtock_rs.Common.{
  ℕ, ◌<◌, ◌^◌, ◌≡◌, ◌≢◌, refl, ◌∙◌, ap, some, [], ◌∷◌, ◌++◌, ◌>>=◌, lookup, insert,
  lookup-insert_self, ok, returns, arith, bind-returns, ==-ne,
}
use libtock_rs.Platform.ReturnVariant
use libtock_rs.Platform.Register.{as_u32}
use libtock_rs.Platform.Syscalls.{Config, subscribe_result}
use libtock_rs.Platform.Syscalls
use libtock_rs.Unittest.KernelData.{KernelData, DriverData, Upcall, UpcallQueueEntry, Args, is_null}
use libtock_rs.Unittest.World.{World, Env}
use libtock_rs.Unittest.ShareData.{schedule, schedule_upcall, enqueue}
use libtock_rs.Unittest.Syscalls.Subscribe.{subscribe, fn_register, payload_register, purge}
use libtock_rs.Unittest.Syscalls.Subscribe.Effect.{
  subscribed, the_upcall, subscribe_succeeds, the_id,
}
use libtock_rs.Unittest.Syscalls.Raw.{syscall4}
use libtock_rs.Unittest.Fake.{fake_syscalls}
use libtock_rs.Unittest.ShareData.{expected}

-- The queue entry of an upcall.
abbrev pub entry : ℕ → ℕ → Args → ℕ → ℕ → UpcallQueueEntry
entry n s args f p = record {
  args = args;
  id = record { driver_num = n; subscribe_num = s };
  upcall = record { fn_pointer = some f; payload = p };
}

-- A schedule under a registered upcall that is not null puts it into an empty queue.
pub schedule_first :
    {H : Type 0} (n s : ℕ) (args : Args) (w : World H) (k : KernelData) (d : DriverData) (f p : ℕ)
    → w.kernel_data ≡ some k
    → lookup n k.drivers ≡ some d
    → s < d.num_upcalls
    → lookup s d.upcalls ≡ some (record { fn_pointer = some f; payload = p })
    → k.upcall_queue ≡ []
    → schedule_upcall n s args w
      ≡ returns (
        ok tt,
        record w { kernel_data = some (record k { upcall_queue = entry n s args f p ∷ [] }) },
      )
unfolding schedule_upcall schedule enqueue is_null
schedule_first n s args w k d f p hk hd h hu hq = ground arith

-- The kernel's data with an upcall at the back of the queue.
abbrev pub enqueued : ℕ → ℕ → Args → ℕ → ℕ → KernelData → KernelData
enqueued n s args f p k = record k { upcall_queue = k.upcall_queue ++ entry n s args f p ∷ [] }

-- A schedule under a registered upcall that is not null puts it at the back of the queue.
pub schedule_last :
    {H : Type 0} (n s : ℕ) (args : Args) (w : World H) (k : KernelData) (d : DriverData) (f p : ℕ)
    → w.kernel_data ≡ some k
    → lookup n k.drivers ≡ some d
    → s < d.num_upcalls
    → lookup s d.upcalls ≡ some (record { fn_pointer = some f; payload = p })
    → (schedule_upcall n s args >>= expected) w
      ≡ returns (tt, record w { kernel_data = some (enqueued n s args f p k) })
unfolding schedule_upcall schedule enqueue is_null
schedule_last n s args w k d f p hk hd h hu = ground arith

module _ {H : Type 0} (env : Env H) (cfg : Config (World H)) (n s fcn payload : ℕ) (w : World H)
    (k : KernelData) (d : DriverData) (n32 : n < 2 ^ 32) (s32 : s < 2 ^ 32)
    (hk : w.kernel_data ≡ some k) (he : k.expected_syscalls ≡ []) (hd : lookup n k.drivers ≡ some d)
    (h : s < d.num_upcalls) (hn : fn_register (lookup s d.upcalls) ≡ 0) where
  abbrev pub u : Upcall
  u = the_upcall n s fcn payload w k

  abbrev pub subscribed_kernel : KernelData
  subscribed_kernel = subscribed n s k u d

  abbrev pub subscribed_world : World H
  subscribed_world = record w { kernel_data = some subscribed_kernel }

  -- The driver with the upcall.
  abbrev pub listening : DriverData
  listening = record d { upcalls = insert s u d.upcalls }

  accepted :
      subscribe_result cfg n s
        (
          ReturnVariant.success_2_u32,
          fn_register (lookup s d.upcalls),
          payload_register (lookup s d.upcalls),
          payload,
        )
        subscribed_world
      ≡ returns (ok tt, subscribed_world)
  unfolding subscribe_result as_u32
  accepted = rw (hn) refl

  pub subscribes :
      Syscalls.subscribe (fake_syscalls env) cfg n s fcn payload w
      ≡ returns (ok tt, subscribed_world)
  unfolding Syscalls.subscribe syscall4
  subscribes =
      bind-returns (subscribe n s fcn payload) (subscribe_result cfg n s)
        (subscribe_succeeds n s fcn payload w k n32 s32 hk he d hd h)
      ∙ accepted

  pub listens : lookup n subscribed_kernel.drivers ≡ some listening
  listens = lookup-insert_self n listening k.drivers

  pub registered_upcall :
      fcn ≢ 0
      → lookup s listening.upcalls ≡ some (record { fn_pointer = some fcn; payload = payload })
  registered_upcall hf = lookup-insert_self s u d.upcalls ∙ ap some (rw (==-ne fcn 0 hf) refl)

  pub empty_queue : k.upcall_queue ≡ [] → subscribed_kernel.upcall_queue ≡ []
  empty_queue hq = ap (purge (the_id n s k)) hq
