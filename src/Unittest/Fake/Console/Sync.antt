-- ===== src/Unittest/Fake/Console/Sync.antt =====
-- `Console::write` of apis/interface/console/src/lib.rs on the fake kernel with the fake console of
-- unittest/src/fake/console/mod.rs: what a call returns and leaves.
use libtock_rs.Common.{
  ℕ, suc, ◌%◌, ◌<◌, ◌^◌, ◌≡◌, ◌≢◌, refl, ◌∙◌, ap, Option, none, some, [], ◌++◌, lookup, take,
  take_all, min, ok, returns, arith, length, min_eq,
}
use libtock_rs.Platform.Syscalls.{Config}
use libtock_rs.Platform.AsyncCall.{Place}
use libtock_rs.Apis.Console as Api
use libtock_rs.Unittest.AllowDb.{AllowBuffer, Buffers, insert, default_buffer, remove}
use libtock_rs.Unittest.AllowDb.Overlap.{IsDb}
use libtock_rs.Unittest.AllowDb.Insert.{Overlaps, insert-IsDb}
use libtock_rs.Unittest.AllowDb.Remove.{insert_ro_fits, remove_absent, remove-insert}
use libtock_rs.Unittest.KernelData.{KernelData, DriverData, Args}
use libtock_rs.Unittest.Memory.{Memory, bytes, slice, length-slice}
use libtock_rs.Unittest.World.{World, Env, hosted}
use libtock_rs.Unittest.Syscalls.Subscribe.{fn_register}
use libtock_rs.Unittest.Syscalls.Subscribe.Effect.{registered}
use libtock_rs.Unittest.Fake.{fake_syscalls}
use libtock_rs.Unittest.Fake.Allows.{shared_buffer}
use libtock_rs.Unittest.Fake.Unsubscribe.{null_upcall}
use libtock_rs.Unittest.Fake.Console.{Console, allow_readonly, command}
use libtock_rs.Unittest.Fake.Console.Writes as Writes
use libtock_rs.Unittest.Fake.Console.Writes.{holds}

-- The whole slice is written where its length fits in 32 bits.
take_passed :
    (m : Memory) (address len : ℕ)
    → len < 2 ^ 32
    → take (min len (len % 2 ^ 32)) (bytes m (shared_buffer address len)) ≡ slice m address len
unfolding bytes
take_passed m address len h =
    let whole : min len (len % 2 ^ 32) ≡ length (slice m address len) =
      rw (length-slice m address len)
        (omega (arith, min_eq len (len % 2 ^ 32) (omega (arith, h)))) in
    ap (λ n. take n (slice m address len)) whole ∙ take_all (slice m address len)

-- Sharing the slice and taking it back, with the empty buffer given back before.
db_restored :
    (address len : ℕ) (m : Buffers)
    → 0 < address
    → 0 < len
    → IsDb 1 m
    → ¬ Overlaps address len m
    → remove address (remove 0 (insert address len m)) ≡ m
db_restored address len m ha hl d apart =
    ap (remove address) (
      remove_absent 0 1 (insert address len m) (omega arith)
        (insert-IsDb 1 address len m hl ha d apart))
    ∙ remove-insert 1 address len m d apart hl

module _ {H : Type 0} (env : Env H) (cfg : Config (World H)) (fcn payload address len fuel : ℕ)
    (place : Place H Console) (memory : Place H Memory) (cell : Place H (Option ℕ)) (w : World H)
    (k : KernelData) (d : DriverData) (s : Console) (hk : w.kernel_data ≡ some k)
    (he : k.expected_syscalls ≡ []) (hq : k.upcall_queue ≡ []) (hd : lookup 1 k.drivers ≡ some d)
    (h : 1 < d.num_upcalls) (hn : fn_register (lookup 1 d.upcalls) ≡ 0) (hf : fcn ≢ 0)
    (hs : place.get w.host ≡ holds s s.messages default_buffer)
    (apart : (o : Option ℕ) (x : H) → place.get (cell.put o x) ≡ place.get x)
    (commands : (c a b : ℕ) (v : World H)
      → env.command d.driver c a b v ≡ command place memory c a b v)
    (allows : (b : ℕ) (u : AllowBuffer) (v : World H)
      → env.allow_readonly d.driver b u v ≡ allow_readonly place memory b u v)
    (calls : (args : Args) (v : World H)
      → env.upcall_fn fcn args payload v ≡ returns (tt, (hosted cell).put (some (args.0)) v))
    (ha : 0 < address) (hl : 0 < len) (l32 : len < 2 ^ 32) (hdb : IsDb 1 k.allow_db)
    (disjoint : ¬ Overlaps address len k.allow_db) where
  -- `Console::write` of a slice on the fake kernel succeeds within one round of its loop. The fake
  -- console then has the bytes of the slice behind its messages and no shared buffer; the kernel has
  -- the active buffers that it had, no queued upcall, and a null upcall under the console's number.
  -- The console is registered as the driver 1, holds no shared buffer and has no upcall there; no
  -- system call is expected and no upcall is queued; the slice is not empty, its length fits in 32 bits
  -- and it meets no active buffer; the cell of the call and the memory are apart from the console.
  pub write_appends :
      (stays : (t : Console) (x : H) → memory.get (place.put t x) ≡ memory.get x)
      → ((o : Option ℕ) (x : H) → memory.get (cell.put o x) ≡ memory.get x)
      → (v : World H) × (k' : KernelData) × (Api.write
            (fake_syscalls env)
            cfg
            fcn
            payload
            address
            len
            (suc fuel)
            (hosted cell)
            w
          ≡ returns (some (ok tt), v))
        × (place.get v.host
            ≡ holds s (s.messages ++ slice (memory.get w.host) address len) default_buffer)
        × (v.kernel_data ≡ some k')
        × (k'.allow_db ≡ k.allow_db)
        × (k'.upcall_queue ≡ [])
        × (registered 1 1 k'.drivers ≡ some null_upcall)
  write_appends stays keeps = (
    Writes.released env cfg fcn payload address len fuel place memory cell w k d s hk he hq hd h hn
        hf hs apart commands allows calls (insert address len k.allow_db)
        (insert_ro_fits 1 address len k.allow_db hl hdb disjoint),
    Writes.released_kernel env cfg fcn payload address len fuel place memory cell w k d s hk he hq
        hd h hn hf hs apart commands allows calls (insert address len k.allow_db)
        (insert_ro_fits 1 address len k.allow_db hl hdb disjoint),
    Writes.write_runs env cfg fcn payload address len fuel place memory cell w k d s hk he hq hd h
        hn hf hs apart commands allows calls (insert address len k.allow_db)
        (insert_ro_fits 1 address len k.allow_db hl hdb disjoint),
    Writes.released_messages env cfg fcn payload address len fuel place memory cell w k d s hk he hq
          hd h hn hf hs apart commands allows calls (insert address len k.allow_db)
          (insert_ro_fits 1 address len k.allow_db hl hdb disjoint)
        ∙ ap (λ bs. holds s (s.messages ++ bs) default_buffer)
            (ap (λ m. take (min len (len % 2 ^ 32)) (bytes m (shared_buffer address len)))
                (stays (holds s s.messages (shared_buffer address len)) (cell.put none w.host)
                  ∙ keeps none w.host)
              ∙ take_passed (memory.get w.host) address len l32),
    refl,
    db_restored address len k.allow_db ha hl hdb disjoint,
    refl,
    Writes.released_upcall env cfg fcn payload address len fuel place memory cell w k d s hk he hq
        hd h hn hf hs apart commands allows calls (insert address len k.allow_db)
        (insert_ro_fits 1 address len k.allow_db hl hdb disjoint),
  )
