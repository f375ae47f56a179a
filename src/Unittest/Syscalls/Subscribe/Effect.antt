-- ===== src/Unittest/Syscalls/Subscribe/Effect.antt =====
-- What unittest/src/fake/syscalls/subscribe_impl.rs changes: the registered upcalls and the queue.
use libtock_rs.Common.{
  ℕ, ◌<◌, ◌≤◌, ◌≡◌, ◌∙◌, refl, ◌&&◌, true, false, Option, none, some, List, [], ◌∷◌, retain, lookup,
  insert, lookup-insert, All, leb, ◌==◌, if◌then◌else◌, returns, arith, Bool-cases, inl, inr, ◌^◌,
}
use libtock_rs.Platform.ErrorCode.{no_device, invalid}
use libtock_rs.Platform.ReturnVariant
use libtock_rs.Unittest.KernelData.{
  KernelData, DriverData, Upcall, UpcallId, UpcallQueueEntry, id_eq, SyscallLogEntry,
}
use libtock_rs.Unittest.World.{World, ◌>>=◌, pure, with_kernel_data}
use libtock_rs.Unittest.Syscalls.Steps.{u32_step, closure_step}
use libtock_rs.Unittest.Syscalls.Enter.{enter, failure_registers}
use libtock_rs.Unittest.Syscalls.Subscribe.{
  subscribe, subscribe_enter, subscribe_store, subscribe_finish, to_fn_pointer, purge, fn_register,
  payload_register,
}

-- The upcall that is registered under a driver's and a subscribe number.
abbrev pub registered : ℕ → ℕ → List (ℕ × DriverData) → Option Upcall
registered n s drivers = elim (lookup n drivers) [ none ↦ none | some d ↦ lookup s d.upcalls ]

abbrev pub stored : UpcallId → Upcall → DriverData → List (ℕ × DriverData) → List (ℕ × DriverData)
stored id u d drivers =
    insert id.driver_num (record d { upcalls = insert id.subscribe_num u d.upcalls }) drivers

pub registered-stored :
    (id : UpcallId) (u : Upcall) (d : DriverData) (drivers : List (ℕ × DriverData)) (n s : ℕ)
    → lookup id.driver_num drivers ≡ some d
    → registered n s (stored id u d drivers)
      ≡ (if id.driver_num == n && id.subscribe_num == s then some u else registered n s drivers)
registered-stored id u d drivers n s here = ground (
  arith,
  lookup-insert id.driver_num n (record d { upcalls = insert id.subscribe_num u d.upcalls })
      drivers,
  lookup-insert id.subscribe_num s u d.upcalls,
)

-- No entry of the queue has the number.
pub purge_lem :
    (id : UpcallId) (q : List UpcallQueueEntry) → All (λ e. id_eq e.id id ≡ false) (purge id q)
purge_lem id [] = tt
purge_lem id (e ∷ q) = elim (Bool-cases (id_eq e.id id)) [
  | inl same ↦ rw (same, All, retain) (purge_lem id q)
  | inr other ↦ rw (other, All, retain) (other, purge_lem id q)
]

module _ (n s : ℕ) (k : KernelData) where
  abbrev pub the_id : UpcallId
  the_id = record { driver_num = n; subscribe_num = s }

  abbrev pub entered : KernelData
  entered = enter (SyscallLogEntry.subscribe n s) k

  -- The kernel data after a call that succeeds.
  abbrev pub subscribed : Upcall → DriverData → KernelData
  subscribed u d = record entered {
    upcall_queue = purge the_id k.upcall_queue;
    drivers = stored the_id u d k.drivers;
  }

  enter_eq :
      (d : DriverData)
      → k.expected_syscalls ≡ []
      → lookup n k.drivers ≡ some d
      → subscribe_enter n s k ≡ returns ((none, some d.num_upcalls), entered)
  unfolding subscribe_enter
  enter_eq d he hd = ground arith

  enter_none :
      k.expected_syscalls ≡ []
      → lookup n k.drivers ≡ none
      → subscribe_enter n s k ≡ returns ((none, none), entered)
  unfolding subscribe_enter
  enter_none he hd = ground arith

  store_eq :
      (u : Upcall) (d : DriverData)
      → lookup n k.drivers ≡ some d
      → subscribe_store the_id u entered ≡ returns (lookup s d.upcalls, subscribed u d)
  unfolding subscribe_store
  store_eq u d hd = rw (hd, subscribe_store)

module _ {H : Type 0} (n s f p : ℕ) (w : World H) (k : KernelData) where
  abbrev pub the_upcall : Upcall
  the_upcall = record { fn_pointer = to_fn_pointer f; payload = p }

  finish_store :
      (num : ℕ) (v : World H)
      → leb num s ≡ false
      → subscribe_finish n s f p none (some num) v
        ≡ (with_kernel_data (subscribe_store (the_id n s k) the_upcall) >>= λ out.
              pure (ReturnVariant.success_2_u32, fn_register out, payload_register out, p))
            v
  unfolding subscribe_finish
  finish_store num v e = rw e

  finish_invalid :
      (num : ℕ) (v : World H)
      → leb num s ≡ true
      → subscribe_finish n s f p none (some num) v ≡ returns (failure_registers invalid f p, v)
  unfolding subscribe_finish
  finish_invalid num v e = rw e

  finish_no_device :
      (v : World H)
      → subscribe_finish n s f p none none v ≡ returns (failure_registers no_device f p, v)
  unfolding subscribe_finish
  finish_no_device v = refl

  module _ (hn : n < 2 ^ 32) (hs : s < 2 ^ 32) (hk : w.kernel_data ≡ some k)
      (he : k.expected_syscalls ≡ []) where
    abbrev after : World H
    after = record w { kernel_data = some (entered n s k) }

    subscribe-entered :
        (num : Option ℕ)
        → subscribe_enter n s k ≡ returns ((none, num), entered n s k)
        → subscribe n s f p w ≡ subscribe_finish n s f p none num after
    unfolding subscribe
    subscribe-entered num e =
        u32_step n _ w hn
        ∙ u32_step s _ w hs
        ∙ closure_step (subscribe_enter n s) _ w k (entered n s k) (none, num) hk e

    -- With a driver and a number in its range, a Subscribe call stores the upcall under the number, takes
    -- the queued upcalls with that number out of the queue, and returns the function and the data of the
    -- upcall that was there, or zeros. The numbers fit in 32 bits and no system call is expected.
    pub subscribe_succeeds :
        (d : DriverData)
        → lookup n k.drivers ≡ some d
        → s < d.num_upcalls
        → subscribe n s f p w
          ≡ returns (
            (
              ReturnVariant.success_2_u32,
              fn_register (lookup s d.upcalls),
              payload_register (lookup s d.upcalls),
              p,
            ),
            record w { kernel_data = some (subscribed n s k the_upcall d) },
          )
    subscribe_succeeds d hd h =
        subscribe-entered (some d.num_upcalls) (enter_eq n s k d he hd)
        ∙ finish_store d.num_upcalls after (ground arith)
        ∙ closure_step (subscribe_store (the_id n s k) the_upcall) _ after (entered n s k)
            (subscribed n s k the_upcall d) (lookup s d.upcalls) refl
            (store_eq n s k the_upcall d hd)

    -- With no driver of this number, a Subscribe call returns `NoDevice` with the upcall that was passed
    -- in, and changes no more than the log. The numbers fit in 32 bits and no system call is expected.
    pub subscribe_no_device :
        lookup n k.drivers ≡ none
        → subscribe n s f p w ≡ returns (failure_registers no_device f p, after)
    subscribe_no_device hd =
        subscribe-entered none (enter_none n s k he hd) ∙ finish_no_device after

    -- With a number beyond the driver's upcalls, a Subscribe call returns `Invalid` with the upcall that
    -- was passed in, and changes no more than the log. The numbers fit in 32 bits and no system call is
    -- expected.
    pub subscribe_invalid :
        (d : DriverData)
        → lookup n k.drivers ≡ some d
        → d.num_upcalls ≤ s
        → subscribe n s f p w ≡ returns (failure_registers invalid f p, after)
    subscribe_invalid d hd h =
        subscribe-entered (some d.num_upcalls) (enter_eq n s k d he hd)
        ∙ finish_invalid d.num_upcalls after (ground arith)
