-- ===== src/Unittest/ShareData.antt =====
-- unittest/src/share_data.rs: `DriverShareRef::schedule_upcall`, by which a driver queues an upcall.
use libtock_rs.Common.{
  ℕ, Option, none, some, [], ◌∷◌, ◌++◌, leb, lookup, if◌then◌else◌, Result, ok, err, Outcome,
  returns, panics, panic,
}
use libtock_rs.Unittest.KernelData.{KernelData, Upcall, is_null, UpcallQueueEntry, Args}
use libtock_rs.Unittest.World.{M, put_back, pure}

pub record InvalidSubscribeNum : Type 0 where
  pub requested : ℕ
  pub upcall_count : ℕ

abbrev pub Schedule : Type 0
Schedule = Result (Unit {0}) InvalidSubscribeNum

-- The last steps: an upcall that is registered and not null goes to the back of the queue.
unfoldable pub enqueue : ℕ → ℕ → Args → Option Upcall → KernelData → KernelData
unfolding is_null
enqueue driver_num subscribe_num args none k = k
enqueue driver_num subscribe_num args (some u) k =
    if is_null u then k else record k { upcall_queue = k.upcall_queue ++ entry ∷ [] }
  where
    entry : UpcallQueueEntry
    entry = record {
      args = args;
      id = record { driver_num = driver_num; subscribe_num = subscribe_num };
      upcall = u;
    }

-- The part that runs with the kernel data at hand.
unfoldable pub schedule : ℕ → ℕ → Args → KernelData → Outcome (Schedule × KernelData)
unfolding enqueue
schedule driver_num subscribe_num args k = elim (lookup driver_num k.drivers) [
  | none ↦ panics
  | some d ↦
      if leb d.num_upcalls subscribe_num
      then returns (err (record { requested = subscribe_num; upcall_count = d.num_upcalls }), k)
      else returns (ok tt, enqueue driver_num subscribe_num args (lookup subscribe_num d.upcalls) k)
]

-- With no kernel this does nothing.
unfoldable pub schedule_upcall : {H : Type 0} → ℕ → ℕ → Args → M H Schedule
unfolding schedule
schedule_upcall driver_num subscribe_num args w = elim w.kernel_data [
  | none ↦ returns (ok tt, w)
  | some k ↦ put_back w (schedule driver_num subscribe_num args k)
]

-- `expect` on what `schedule_upcall` returns.
abbrev pub expected : {H : Type 0} → Schedule → M H (Unit {0})
expected (ok _) = pure tt
expected (err _) = panic
