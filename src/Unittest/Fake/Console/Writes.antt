-- ===== src/Unittest/Fake/Console/Writes.antt =====
-- `Console::write` of apis/interface/console/src/lib.rs on the fake kernel with the fake console of
-- unittest/src/fake/console/mod.rs: the steps of a call that succeeds.
use libtock_rs.Common.{
  ℕ, suc, ◌%◌, ◌<◌, ◌^◌, ◌≡◌, ◌≢◌, refl, ◌∙◌, ap, Option, none, some, List, [], ◌∷◌, ◌++◌, lookup,
  take, min, Result, ok, Run, returns, arith, bind-returns, ◌>>=◌, pure,
}
use libtock_rs.Platform.ErrorCode.{ErrorCode}
use libtock_rs.Platform.CommandReturn.Data.{to_result, success_unit, failure_code}
use libtock_rs.Platform.Syscalls.{Config}
use libtock_rs.Platform.Syscalls
use libtock_rs.Platform.AsyncCall.{Place}
use libtock_rs.Apis.Blocking.{Blocking, yield_until_called, return_if_called}
use libtock_rs.Apis.Console as Api
use libtock_rs.Unittest.Fake.Reading.{scope-returns}
use libtock_rs.Unittest.AllowDb.{AllowBuffer, Buffers, insert_ro_buffer, default_buffer, remove}
use libtock_rs.Unittest.CommandReturn.{success}
use libtock_rs.Unittest.KernelData.{KernelData, DriverData, Args, SyscallLogEntry}
use libtock_rs.Unittest.Memory.{Memory, bytes}
use libtock_rs.Unittest.World.{World, Env, hosted}
use libtock_rs.Unittest.Syscalls.Enter.{enter, rest}
use libtock_rs.Unittest.Syscalls.Subscribe.{fn_register}
use libtock_rs.Unittest.Syscalls.Subscribe.Effect.{subscribed, registered}
use libtock_rs.Unittest.Syscalls.Yield.{invoke}
use libtock_rs.Unittest.Syscalls.Yield.Fifo.{yield_wait_runs}
use libtock_rs.Unittest.ShareData.{schedule_upcall, expected}
use libtock_rs.Unittest.Fake.{fake_syscalls}
use libtock_rs.Unittest.Fake.Allows.{shared_buffer, allow_ro_returns, unallow_ro_returns}
use libtock_rs.Unittest.Fake.BlockOn.{fake_yield_wait}
use libtock_rs.Unittest.Fake.Results.{command_gives, success-IsReturn, success-result}
use libtock_rs.Unittest.Fake.Subscribed.{
  enqueued, schedule_last, entry, subscribed_kernel, listening, subscribes, listens,
  registered_upcall, empty_queue,
}
use libtock_rs.Unittest.Fake.Unsubscribe.{unsubscribe_lem, null_upcall}
use libtock_rs.Unittest.Fake.Console.{Console, store, allow_readonly, write, command}

-- A console that is registered as the driver 1, with the messages and the shared buffer.
abbrev pub holds : Console → List ℕ → AllowBuffer → Console
holds s messages buffer = record s { messages = messages; buffer = buffer; share_ref = 1 }

module _ {H : Type 0} (env : Env H) (cfg : Config (World H)) (fcn payload address len fuel : ℕ)
    (place : Place H Console) (memory : Place H Memory) (cell : Place H (Option ℕ)) (w : World H)
    (k : KernelData) (d : DriverData) (s : Console) (hk : w.kernel_data ≡ some k)
    (he : k.expected_syscalls ≡ []) (hq : k.upcall_queue ≡ []) (hd : lookup 1 k.drivers ≡ some d)
    (h : 1 < d.num_upcalls) (hn : fn_register (lookup 1 d.upcalls) ≡ 0) (hf : fcn ≢ 0)
    (hs : place.get w.host ≡ holds s s.messages default_buffer)
    (apart : (o : Option ℕ) (x : H) → place.get (cell.put o x) ≡ place.get x)
    (commands : (c a b : ℕ) (v : World H)
      → env.command d.driver c a b v ≡ command place memory c a b v)
    (allows : (b : ℕ) (u : AllowBuffer) (v : World H)
      → env.allow_readonly d.driver b u v ≡ allow_readonly place memory b u v)
    (calls : (args : Args) (v : World H)
      → env.upcall_fn fcn args payload v ≡ returns (tt, (hosted cell).put (some (args.0)) v))
    (db : Buffers)
    (fits : insert_ro_buffer address len k.allow_db ≡ ok (shared_buffer address len, db)) where
  abbrev pub begun : World H
  begun = record w { host = cell.put none w.host }

  abbrev pub allowed_host : H
  allowed_host = place.put (holds s s.messages (shared_buffer address len)) begun.host

  abbrev pub sharing_kernel : KernelData
  sharing_kernel = record (enter (SyscallLogEntry.allow_ro 1 1 len) k) { allow_db = db }

  abbrev pub allowed_kernel : KernelData
  allowed_kernel = record sharing_kernel { allow_db = remove 0 db }

  abbrev pub allowed : World H
  allowed = record { kernel_data = some allowed_kernel; host = allowed_host }

  -- The driver keeps a buffer and gives back the one that it had.
  exchanges :
      (messages : List ℕ) (old new : AllowBuffer) (v : World H)
      → place.get v.host ≡ holds s messages old
      → env.allow_readonly d.driver 1 new v
        ≡ returns (ok old, store place memory (holds s messages new) v)
  unfolding allow_readonly
  exchanges messages old new v e =
      allows 1 new v
      ∙ ap
          (λ (x : Console). returns (ok x.buffer, store place memory (record x { buffer = new }) v))
          e

  allow_step :
      Syscalls.allow_ro (fake_syscalls env) cfg 1 1 address len begun ≡ returns (ok tt, allowed)
  allow_step =
      allow_ro_returns env 1 1 address len begun k d (omega arith) (omega arith) hk he hd db fits
        default_buffer
        (store place memory (holds s s.messages (shared_buffer address len))
          (record begun { kernel_data = some sharing_kernel }))
        sharing_kernel
        (exchanges s.messages default_buffer (shared_buffer address len) _ (apart none w.host ∙ hs))
        refl cfg refl refl

  pub none_expected : rest k.expected_syscalls ≡ []
  none_expected = ap rest he

  abbrev pub listening_kernel : KernelData
  listening_kernel =
      subscribed_kernel env cfg 1 1 fcn payload allowed allowed_kernel d (omega arith) (omega arith)
        refl none_expected hd h hn

  abbrev pub listening_driver : DriverData
  listening_driver =
      listening env cfg 1 1 fcn payload allowed allowed_kernel d (omega arith) (omega arith) refl
        none_expected hd h hn

  abbrev pub listening_world : World H
  listening_world = record allowed { kernel_data = some listening_kernel }

  subscribe_step :
      Syscalls.subscribe (fake_syscalls env) cfg 1 1 fcn payload allowed
      ≡ returns (ok tt, listening_world)
  subscribe_step =
      subscribes env cfg 1 1 fcn payload allowed allowed_kernel d (omega arith) (omega arith) refl
        none_expected hd h hn

  pub present : lookup 1 listening_kernel.drivers ≡ some listening_driver
  present =
      listens env cfg 1 1 fcn payload allowed allowed_kernel d (omega arith) (omega arith) refl
        none_expected hd h hn

  -- The length that the command passes, the bytes that it takes, and the messages after it.
  abbrev pub passed : ℕ
  passed = len % 2 ^ 32

  abbrev pub size : ℕ
  size = min len passed

  abbrev pub messages : List ℕ
  messages = s.messages ++ take size (bytes (memory.get allowed_host) (shared_buffer address len))

  abbrev pub written_host : H
  written_host = place.put (holds s messages (shared_buffer address len)) allowed_host

  abbrev pub command_kernel : KernelData
  command_kernel = enter (SyscallLogEntry.command 1 1 passed 0) listening_kernel

  abbrev pub queued_kernel : KernelData
  queued_kernel = enqueued 1 1 (size % 2 ^ 32, 0, 0) fcn payload command_kernel

  abbrev pub queued : World H
  queued = record { kernel_data = some queued_kernel; host = written_host }

  writes :
      write place memory passed (record allowed { kernel_data = some command_kernel })
      ≡ returns (tt, queued)
  unfolding write
  writes =
      ap
        (λ (x : Console).
          let n = min x.buffer.len passed in
          (schedule_upcall x.share_ref 1 (n % 2 ^ 32, 0, 0) >>= expected) (
            store place memory
              (record x {
                messages = x.messages ++ take n (bytes (memory.get allowed_host) x.buffer);
              })
              (record allowed { kernel_data = some command_kernel })))
        (place.get-put (holds s s.messages (shared_buffer address len)) begun.host)
      ∙ schedule_last 1 1 (size % 2 ^ 32, 0, 0) _ command_kernel listening_driver fcn payload refl
          present h
          (registered_upcall env cfg 1 1 fcn payload allowed allowed_kernel d (omega arith)
            (omega arith) refl none_expected hd h hn hf)

  start_step : Api.command_unit (fake_syscalls env) 1 len listening_world ≡ returns (ok tt, queued)
  unfolding command
  start_step =
      command_gives env 1 1 passed 0 listening_world listening_kernel (omega arith) (omega arith)
        (omega arith) (omega arith) refl (ap rest none_expected) listening_driver present
        (to_result success_unit failure_code) success (ok tt) queued
        (commands 1 passed 0 _
          ∙ bind-returns (write place memory passed) (λ _. pure success) writes)
        success-IsReturn success-result

  abbrev pub yielded_kernel : KernelData
  yielded_kernel = record (enter SyscallLogEntry.yield_wait queued_kernel) { upcall_queue = [] }

  abbrev pub called : World H
  called = record {
    kernel_data = some yielded_kernel;
    host = cell.put (some (size % 2 ^ 32)) written_host;
  }

  yield_step : Syscalls.yield_wait (fake_syscalls env) queued ≡ returns (tt, called)
  yield_step =
      fake_yield_wait env queued
      ∙ yield_wait_runs env queued queued_kernel (entry 1 1 (size % 2 ^ 32, 0, 0) fcn payload) []
          called refl (ap rest (ap rest none_expected))
          (ap (λ q. q ++ entry 1 1 (size % 2 ^ 32, 0, 0) fcn payload ∷ [])
            (empty_queue env cfg 1 1 fcn payload allowed allowed_kernel d (omega arith)
              (omega arith) refl none_expected hd h hn hq))
          (unfold invoke in calls (size % 2 ^ 32, 0, 0) (record called { host = written_host }))

  abbrev pub given_back_kernel : KernelData
  given_back_kernel =
      let k' = enter (SyscallLogEntry.allow_ro 1 1 0) yielded_kernel in
      record k' { allow_db = remove address k'.allow_db }

  abbrev pub given_back : World H
  given_back = record {
    kernel_data = some given_back_kernel;
    host = place.put (holds s messages default_buffer) called.host;
  }

  unallow_step : Syscalls.unallow_ro (fake_syscalls env) 1 1 called ≡ returns (tt, given_back)
  unallow_step =
      unallow_ro_returns env 1 1 called yielded_kernel listening_driver (omega arith) (omega arith)
        refl (ap rest (ap rest (ap rest none_expected))) present (shared_buffer address len)
        (store place memory (holds s messages default_buffer) (record called {
          kernel_data = some (enter (SyscallLogEntry.allow_ro 1 1 0) yielded_kernel);
        }))
        (enter (SyscallLogEntry.allow_ro 1 1 0) yielded_kernel)
        (exchanges messages (shared_buffer address len) default_buffer _
          (apart (some (size % 2 ^ 32)) written_host ∙ place.get-put _ allowed_host))
        refl

  abbrev pub released_kernel : KernelData
  released_kernel = subscribed 1 1 given_back_kernel null_upcall listening_driver

  abbrev pub released : World H
  released = record given_back { kernel_data = some released_kernel }

  unsubscribe_step :
      Syscalls.unsubscribe (fake_syscalls env) 1 1 given_back ≡ returns (tt, released)
  unsubscribe_step =
      (unsubscribe_lem env 1 1 given_back given_back_kernel listening_driver (omega arith)
        (omega arith) refl (ap rest (ap rest (ap rest (ap rest none_expected)))) present h).0

  awaits :
      yield_until_called (hosted cell) (fake_syscalls env) (suc fuel) queued
      ≡ returns (some (size % 2 ^ 32), called)
  unfolding yield_until_called
  awaits =
      bind-returns (Syscalls.yield_wait (fake_syscalls env)) _ yield_step
      ∙ rw (cell.get-put (some (size % 2 ^ 32)) written_host, return_if_called) refl

  -- The closure of the call.
  abbrev closure : Blocking (World H) (Result (Unit {0}) ErrorCode)
  closure =
      Syscalls.allow_ro (fake_syscalls env) cfg 1 1 address len
      >>= Api.subscribe_to_write (fake_syscalls env) cfg fcn payload address len (suc fuel)
          (hosted cell)

  runs : closure begun ≡ returns (some (ok tt), called)
  runs =
      bind-returns (Syscalls.allow_ro (fake_syscalls env) cfg 1 1 address len)
        (Api.subscribe_to_write (fake_syscalls env) cfg fcn payload address len (suc fuel)
          (hosted cell))
        allow_step
      ∙ bind-returns (Syscalls.subscribe (fake_syscalls env) cfg 1 1 fcn payload)
          (Api.start_write (fake_syscalls env) cfg fcn payload address len (suc fuel) (hosted cell))
          subscribe_step
      ∙ bind-returns (Api.command_unit (fake_syscalls env) 1 len)
          (Api.await_write (fake_syscalls env) cfg fcn payload address len (suc fuel) (hosted cell))
          start_step
      ∙ bind-returns (yield_until_called (hosted cell) (fake_syscalls env) (suc fuel)) Api.written
          awaits

  abbrev release : Run (World H) (Unit {0})
  release =
      Api.release_write (fake_syscalls env) cfg fcn payload address len (suc fuel) (hosted cell)

  releases : release called ≡ returns (tt, released)
  releases =
      bind-returns (Syscalls.unallow_ro (fake_syscalls env) 1 1)
        (λ _. Syscalls.unsubscribe (fake_syscalls env) 1 1) unallow_step
      ∙ unsubscribe_step

  pub write_runs :
      Api.write (fake_syscalls env) cfg fcn payload address len (suc fuel) (hosted cell) w
      ≡ returns (some (ok tt), released)
  unfolding Api.write
  write_runs = scope-returns release closure runs releases

  pub released_messages : place.get released.host ≡ holds s messages default_buffer
  released_messages = place.get-put (holds s messages default_buffer) called.host

  pub released_upcall : registered 1 1 released_kernel.drivers ≡ some null_upcall
  released_upcall =
      (unsubscribe_lem env 1 1 given_back given_back_kernel listening_driver (omega arith)
          (omega arith) refl (ap rest (ap rest (ap rest (ap rest none_expected)))) present h).3
        1 1
