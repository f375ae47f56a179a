-- ===== src/Unittest/Kernel/Invariant.antt =====
-- The invariant of the fake kernel's data: unittest/src/upcall.rs says that all upcalls in the queue
-- are active, and unittest/src/allow_db.rs that the active buffers do not overlap.
use libtock_rs.Common.{
  ℕ, ◌<◌, ◌≡◌, sym, ap, false, not, none, some, List, [], ◌∷◌, lookup, insert, lookup-insert, All,
  retain, arith, Outcome, returns, panics, exits, Bool-cases, inl, inr, ◌==◌, ==→eq, subst,
}
use libtock_rs.Unittest.AllowDb.Overlap.{IsDb}
use libtock_rs.Unittest.KernelData.{
  KernelData, DriverData, Upcall, is_null, UpcallId, id_eq, UpcallQueueEntry,
}

-- The entry's upcall is the one that its driver has registered under its number, which is below the
-- driver's number of upcalls; and it is not the null upcall.
pub record IsActive (drivers : List (ℕ × DriverData)) (e : UpcallQueueEntry) : Type 0 where
  pub d : DriverData
  pub present : lookup e.id.driver_num drivers ≡ some d
  pub registered : lookup e.id.subscribe_num d.upcalls ≡ some e.upcall
  pub in_range : e.id.subscribe_num < d.num_upcalls
  pub not_null : is_null e.upcall ≡ false

pub record IsWellFormed (k : KernelData) : Type 0 where
  pub active : All (IsActive k.drivers) k.upcall_queue
  pub disjoint : IsDb 0 k.allow_db

-- A closure keeps the invariant.
abbrev pub Keeps : {A : Type 0} → Outcome (A × KernelData) → Type 0
Keeps (returns (a, k)) = IsWellFormed k
Keeps panics = Unit
Keeps (exits c) = Unit

module _ (id : UpcallId) (u : Upcall) (d : DriverData) (drivers : List (ℕ × DriverData)) where
  abbrev stored : List (ℕ × DriverData)
  stored = insert id.driver_num (record d { upcalls = insert id.subscribe_num u d.upcalls }) drivers

  -- An entry with another number stays active.
  pub store-IsActive :
      (e : UpcallQueueEntry)
      → lookup id.driver_num drivers ≡ some d
      → id_eq e.id id ≡ false
      → IsActive drivers e
      → IsActive stored e
  store-IsActive e here other a = elim (Bool-cases (id.driver_num == e.id.driver_num)) [
    | inl same ↦
        let at_same : id.driver_num ≡ e.id.driver_num = ==→eq _ _ same in
        let d_same : d ≡ a.d = cc in
        record {
          d = record d { upcalls = insert id.subscribe_num u d.upcalls };
          present = ground (
            arith,
            lookup-insert id.driver_num e.id.driver_num
                (record d { upcalls = insert id.subscribe_num u d.upcalls }) drivers,
          );
          registered = ground (
            arith,
            lookup-insert id.subscribe_num e.id.subscribe_num u d.upcalls,
            ap (λ (x : DriverData). lookup e.id.subscribe_num x.upcalls) d_same,
          );
          in_range =
              subst (λ (x : DriverData). e.id.subscribe_num < x.num_upcalls) (sym d_same)
                a.in_range;
          not_null = a.not_null;
        }
    | inr differs ↦ record {
      d = a.d;
      present = ground (
        arith,
        lookup-insert id.driver_num e.id.driver_num
            (record d { upcalls = insert id.subscribe_num u d.upcalls }) drivers,
      );
      registered = a.registered;
      in_range = a.in_range;
      not_null = a.not_null;
    }
  ]

  -- After the purge every entry has another number, so the queue stays active.
  pub purge-IsActive :
      (q : List UpcallQueueEntry)
      → lookup id.driver_num drivers ≡ some d
      → All (IsActive drivers) q
      → All (IsActive stored) (retain (λ e. not (id_eq e.id id)) q)
  purge-IsActive [] here a = tt
  purge-IsActive (e ∷ q) here a = elim (Bool-cases (id_eq e.id id)) [
    | inl same ↦ rw (same, All, retain) (purge-IsActive q here a.1)
    | inr other ↦
        rw (other, All, retain) (store-IsActive e here other a.0, purge-IsActive q here a.1)
  ]

-- A driver with a new number leaves the entries active.
pub insert-IsActive :
    (n : ℕ) (d : DriverData) (drivers : List (ℕ × DriverData)) (q : List UpcallQueueEntry)
    → lookup n drivers ≡ none
    → All (IsActive drivers) q
    → All (IsActive (insert n d drivers)) q
insert-IsActive n d drivers [] fresh a = tt
insert-IsActive n d drivers (e ∷ q) fresh a = (
  record {
    d = (a.0).d;
    present = ground (arith, lookup-insert n e.id.driver_num d drivers, (a.0).present);
    registered = (a.0).registered;
    in_range = (a.0).in_range;
    not_null = (a.0).not_null;
  },
  insert-IsActive n d drivers q fresh a.1,
)
