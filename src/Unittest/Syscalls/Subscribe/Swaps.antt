-- ===== src/Unittest/Syscalls/Subscribe/Swaps.antt =====
-- Two calls of unittest/src/fake/syscalls/subscribe_impl.rs under the same numbers.
use libtock_rs.Common.{
  ℕ, ◌<◌, ◌≡◌, ◌∙◌, ap, ◌++◌, ◌^◌, ◌&&◌, ◌==◌, false, none, some, [], ◌∷◌, All, lookup,
  if◌then◌else◌, List, retain, returns, arith, Bool-cases, inl, inr, refl, subst, insert,
  lookup-insert_self, append_assoc,
}
use libtock_rs.Platform.ReturnVariant
use libtock_rs.Unittest.KernelData.{
  KernelData, DriverData, Upcall, UpcallId, UpcallQueueEntry, id_eq, SyscallLogEntry,
}
use libtock_rs.Unittest.World.{World}
use libtock_rs.Unittest.Syscalls.Enter.{Registers4, rest}
use libtock_rs.Unittest.Syscalls.Subscribe.{
  subscribe, purge, fn_register, payload_register, to_fn_pointer,
}
use libtock_rs.Unittest.Syscalls.Subscribe.Effect.{
  registered, registered-stored, purge_lem, the_id, subscribed, the_upcall, subscribe_succeeds,
}

-- An upcall's function comes back in its register, the null upcall as zero.
fn_register_lem :
    (f p : ℕ) → fn_register (some (record { fn_pointer = to_fn_pointer f; payload = p })) ≡ f
fn_register_lem f p = ground arith

All-imp :
    {P Q : UpcallQueueEntry → Type 0}
    → ((e : UpcallQueueEntry) → P e → Q e)
    → (q : List UpcallQueueEntry) → All P q
    → All Q q
All-imp imp [] h = tt
All-imp imp (e ∷ q) (here, later) = (imp e here, All-imp imp q later)

-- A purged queue holds no new entry.
purge-All :
    (P : UpcallQueueEntry → Type 0) (id : UpcallId) (q : List UpcallQueueEntry)
    → All P q
    → All P (purge id q)
purge-All P id [] h = tt
purge-All P id (e ∷ q) (here, later) = elim (Bool-cases (id_eq e.id id)) [
  | inl same ↦ rw (same, retain) (purge-All P id q later)
  | inr other ↦ rw (other, retain) (here, purge-All P id q later)
]

-- What holds of all entries of the purged queue holds of those with other numbers.
All-purge :
    (P : UpcallQueueEntry → Type 0) (id : UpcallId) (q : List UpcallQueueEntry)
    → All P (purge id q)
    → All (λ e. id_eq e.id id ≡ false → P e) q
All-purge P id [] h = tt
All-purge P id (e ∷ q) h = elim (Bool-cases (id_eq e.id id)) [
  | inl same ↦
      let gone : purge id (e ∷ q) ≡ purge id q = rw (same, retain) refl in
      (λ other. absurd (cc (same, other)), All-purge P id q (subst (All P) gone h))
  | inr other ↦
      let stays : purge id (e ∷ q) ≡ e ∷ purge id q = rw (other, retain) refl in
      let (here, later) = subst (All P) stays h in (λ _. here, All-purge P id q later)
]

module _ {H : Type 0} (n s f p g q : ℕ) (w : World H) (k : KernelData) (d : DriverData)
    (hn : n < 2 ^ 32) (hs : s < 2 ^ 32) (hk : w.kernel_data ≡ some k)
    (he : k.expected_syscalls ≡ []) (hd : lookup n k.drivers ≡ some d) (h : s < d.num_upcalls) where
  -- The upcalls that the calls pass in, and what each call leaves.
  abbrev upcall_1 : Upcall
  upcall_1 = the_upcall n s f p w k

  abbrev kernel_1 : KernelData
  kernel_1 = subscribed n s k upcall_1 d

  abbrev world_1 : World H
  world_1 = record w { kernel_data = some kernel_1 }

  abbrev driver_1 : DriverData
  driver_1 = record d { upcalls = insert s upcall_1 d.upcalls }

  abbrev upcall_2 : Upcall
  upcall_2 = the_upcall n s g q world_1 kernel_1

  abbrev kernel_2 : KernelData
  kernel_2 = subscribed n s kernel_1 upcall_2 driver_1

  abbrev world_2 : World H
  world_2 = record w { kernel_data = some kernel_2 }

  present : lookup n kernel_1.drivers ≡ some driver_1
  present = lookup-insert_self n driver_1 k.drivers

  known : lookup s driver_1.upcalls ≡ some upcall_1
  known = lookup-insert_self s upcall_1 d.upcalls

  first :
      subscribe n s f p w
      ≡ returns (
        (
          ReturnVariant.success_2_u32,
          fn_register (lookup s d.upcalls),
          payload_register (lookup s d.upcalls),
          p,
        ),
        world_1,
      )
  first = subscribe_succeeds n s f p w k hn hs hk he d hd h

  second : subscribe n s g q world_1 ≡ returns ((ReturnVariant.success_2_u32, f, p, q), world_2)
  second =
      subscribe_succeeds n s g q world_1 kernel_1 hn hs refl (ap rest he) driver_1 present h
      ∙ ap (λ r. returns (r, world_2))
          (ap (λ o. (ReturnVariant.success_2_u32, fn_register o, payload_register o, q)) known
            ∙ ap (λ x. (ReturnVariant.success_2_u32, x, p, q)) (fn_register_lem f p))

  holds :
      (n' s' : ℕ)
      → registered n' s' kernel_2.drivers
        ≡ (if n == n' && s == s' then some upcall_2 else registered n' s' k.drivers)
  holds n' s' =
      registered-stored (the_id n s kernel_1) upcall_2 driver_1 kernel_1.drivers n' s' present
      ∙ ap (λ r. if n == n' && s == s' then some upcall_2 else r)
          (registered-stored (the_id n s k) upcall_1 d k.drivers n' s' hd)
      ∙ ground arith

  others :
      (P : UpcallQueueEntry → Type 0)
      → All P kernel_2.upcall_queue
      → All (λ e. id_eq e.id (the_id n s k) ≡ false → P e) k.upcall_queue
  others P h =
      All-imp (λ e x other. x other other) k.upcall_queue
        (All-purge (λ e. id_eq e.id (the_id n s k) ≡ false → P e) (the_id n s k) k.upcall_queue
          (All-purge P (the_id n s k) (purge (the_id n s k) k.upcall_queue) h))

  -- Two Subscribe calls under the same numbers succeed, and the second returns the function and the
  -- data that the first passed in. Then the upcall of the second is registered under the numbers, null
  -- where its function is zero, and every other upcall is as it was before the first; no entry of the
  -- queue has the numbers, nothing is queued that was not, and an entry with other numbers still is;
  -- both calls are in the log. The numbers fit in 32 bits, the driver exists and the number is in its
  -- range; no system call is expected.
  pub subscribe_swaps :
      (r : Registers4) × (v : World H) × (v' : World H) × (k' : KernelData) × (subscribe n s f p w
        ≡ returns (r, v))
      × (subscribe n s g q v ≡ returns ((ReturnVariant.success_2_u32, f, p, q), v'))
      × (v' ≡ record w { kernel_data = some k' })
      × ((n' s' : ℕ)
          → registered n' s' k'.drivers ≡ (
              if n == n' && s == s'
              then some (record { fn_pointer = if g == 0 then none else some g; payload = q })
              else registered n' s' k.drivers))
      × All (λ e. id_eq e.id (record { driver_num = n; subscribe_num = s }) ≡ false) k'.upcall_queue
      × ((P : UpcallQueueEntry → Type 0) → All P k.upcall_queue → All P k'.upcall_queue)
      × ((P : UpcallQueueEntry → Type 0)
          → All P k'.upcall_queue
          → All
              (λ e. id_eq e.id (record { driver_num = n; subscribe_num = s }) ≡ false → P e)
              k.upcall_queue)
      × (k'.syscall_log
          ≡ k.syscall_log ++ SyscallLogEntry.subscribe n s ∷ SyscallLogEntry.subscribe n s ∷ [])
  subscribe_swaps = (
    (
      ReturnVariant.success_2_u32,
      fn_register (lookup s d.upcalls),
      payload_register (lookup s d.upcalls),
      p,
    ),
    world_1,
    world_2,
    kernel_2,
    first,
    second,
    refl,
    holds,
    purge_lem (the_id n s k) (purge (the_id n s k) k.upcall_queue),
    λ P h. purge-All P (the_id n s k) _ (purge-All P (the_id n s k) k.upcall_queue h),
    others,
    append_assoc k.syscall_log _ _,
  )
