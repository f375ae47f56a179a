-- ===== src/Unittest/Syscalls/Closures.antt =====
-- Every closure that the system calls of unittest/src/fake/syscalls, unittest/src/share_data.rs and
-- unittest/src/fake/kernel.rs run on the kernel's data keeps its invariant.
use libtock_rs.Common.{
  ℕ, ◌≡◌, ◌<◌, none, some, List, [], ◌∷◌, lookup, All, All-append, arith, returns, Option-cases,
  Result-cases, inl, inr, leb, Bool-cases,
}
use libtock_rs.Unittest.AllowDb.{
  AllowBuffer, insert_ro_buffer, insert_rw_buffer, remove_ro_buffer, remove_rw_buffer,
}
use libtock_rs.Unittest.AllowDb.Insert.{insert_ro_buffer-IsDb, insert_rw_buffer-IsDb}
use libtock_rs.Unittest.AllowDb.Remove.{remove-IsDb}
use libtock_rs.Unittest.KernelData.{
  KernelData, DriverData, Upcall, is_null, UpcallId, UpcallQueueEntry, Args,
}
use libtock_rs.Unittest.Kernel.Invariant.{
  IsActive, IsWellFormed, Keeps, purge-IsActive, insert-IsActive,
}
use libtock_rs.Unittest.Kernel.{insert_driver}
use libtock_rs.Unittest.ShareData.{schedule, enqueue}
use libtock_rs.Unittest.Syscalls.Subscribe.{subscribe_enter, subscribe_store}
use libtock_rs.Unittest.Syscalls.Command.{command_enter}
use libtock_rs.Unittest.Syscalls.Allow.{
  allow_ro_enter, allow_ro_leave, allow_rw_enter, allow_rw_leave,
}
use libtock_rs.Unittest.Syscalls.Memop.{memop_enter}
use libtock_rs.Unittest.Syscalls.Yield.{yield_no_wait_enter, yield_wait_enter, pop_queue}

module _ (k : KernelData) (wf : IsWellFormed k) where
  pub insert_driver-Keeps : (n : ℕ) (d : DriverData) → Keeps (insert_driver n d k)
  unfolding insert_driver
  insert_driver-Keeps n d = elim (Option-cases (lookup n k.drivers)) [
    | inl e ↦
        rw (e, insert_driver)
          (record {
            active = insert-IsActive n d k.drivers k.upcall_queue e wf.active;
            disjoint = wf.disjoint;
          })
    | inr (d', e) ↦ rw (e, insert_driver) tt
  ]

  pub subscribe_enter-Keeps : (n s : ℕ) → Keeps (subscribe_enter n s k)
  unfolding subscribe_enter
  subscribe_enter-Keeps n s = ground arith

  pub subscribe_store-Keeps : (id : UpcallId) (u : Upcall) → Keeps (subscribe_store id u k)
  unfolding subscribe_store
  subscribe_store-Keeps id u = elim (Option-cases (lookup id.driver_num k.drivers)) [
    | inl e ↦ rw (e, subscribe_store) tt
    | inr (d, e) ↦
        rw (e, subscribe_store)
          (record {
            active = purge-IsActive id u d k.drivers k.upcall_queue e wf.active;
            disjoint = wf.disjoint;
          })
  ]

  pub command_enter-Keeps : (d c a b : ℕ) → Keeps (command_enter d c a b k)
  unfolding command_enter
  command_enter-Keeps d c a b = ground arith

  pub allow_ro_enter-Keeps : (d b address len : ℕ) → Keeps (allow_ro_enter d b address len k)
  unfolding allow_ro_enter
  allow_ro_enter-Keeps d b address len =
      elim (Result-cases (insert_ro_buffer address len k.allow_db)) [
        | inl ((buffer, db), e) ↦
            ground (arith, e, insert_ro_buffer-IsDb address len k.allow_db db buffer wf.disjoint e)
        | inr (o, e) ↦ ground (arith, e)
      ]

  pub allow_rw_enter-Keeps : (d b address len : ℕ) → Keeps (allow_rw_enter d b address len k)
  unfolding allow_rw_enter
  allow_rw_enter-Keeps d b address len =
      elim (Result-cases (insert_rw_buffer address len k.allow_db)) [
        | inl ((buffer, db), e) ↦
            ground (arith, e, insert_rw_buffer-IsDb address len k.allow_db db buffer wf.disjoint e)
        | inr (o, e) ↦ ground (arith, e)
      ]

  pub allow_ro_leave-Keeps : (buffer : AllowBuffer) → Keeps (allow_ro_leave buffer k)
  unfolding allow_ro_leave remove_ro_buffer
  allow_ro_leave-Keeps buffer = record {
    active = wf.active;
    disjoint = remove-IsDb 0 buffer.address k.allow_db wf.disjoint;
  }

  pub allow_rw_leave-Keeps : (buffer : AllowBuffer) → Keeps (allow_rw_leave buffer k)
  unfolding allow_rw_leave remove_rw_buffer
  allow_rw_leave-Keeps buffer = record {
    active = wf.active;
    disjoint = remove-IsDb 0 buffer.address k.allow_db wf.disjoint;
  }

  pub memop_enter-Keeps : (n a : ℕ) → Keeps (memop_enter n a k)
  unfolding memop_enter
  memop_enter-Keeps n a = ground arith

  pub yield_no_wait_enter-Keeps : Keeps (yield_no_wait_enter k)
  unfolding yield_no_wait_enter
  yield_no_wait_enter-Keeps = ground arith

  pub yield_wait_enter-Keeps : Keeps (yield_wait_enter k)
  unfolding yield_wait_enter
  yield_wait_enter-Keeps = ground arith

  pub pop_queue-Keeps : Keeps (pop_queue k)
  unfolding pop_queue
  pop_queue-Keeps = go k.upcall_queue wf.active
    where
      go :
          (q : List UpcallQueueEntry)
          → All (IsActive k.drivers) q
          → Keeps (elim q [
            | [] ↦ returns (none, k)
            | e ∷ es ↦ returns (some e, record k { upcall_queue = es })
          ])
      go [] a = wf
      go (e ∷ es) a = record { active = a.1; disjoint = wf.disjoint }

  enqueue-IsWellFormed :
      (n s : ℕ) (args : Args) (d : DriverData)
      → lookup n k.drivers ≡ some d
      → s < d.num_upcalls
      → IsWellFormed (enqueue n s args (lookup s d.upcalls) k)
  unfolding enqueue
  enqueue-IsWellFormed n s args d here h = elim (Option-cases (lookup s d.upcalls)) [
    | inl e ↦ rw (e, enqueue) wf
    | inr (u, e) ↦
        rw (e, enqueue)
          (elim (Bool-cases (is_null u)) [
            | inl null ↦ rw null wf
            | inr live ↦ rw live (record {
              active = All-append (IsActive k.drivers) k.upcall_queue _ wf.active (
                record { d = d; present = here; registered = e; in_range = h; not_null = live },
                tt,
              );
              disjoint = wf.disjoint;
            })
          ])
  ]

  pub schedule-Keeps : (n s : ℕ) (args : Args) → Keeps (schedule n s args k)
  unfolding schedule
  schedule-Keeps n s args = elim (Option-cases (lookup n k.drivers)) [
    | inl e ↦ rw (e, schedule) tt
    | inr (d, e) ↦
        rw (e, schedule)
          (elim (Bool-cases (leb d.num_upcalls s)) [
            | inl over ↦ rw over wf
            | inr within ↦ rw within (enqueue-IsWellFormed n s args d e (ground arith))
          ])
  ]
