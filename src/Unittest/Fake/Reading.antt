-- ===== src/Unittest/Fake/Reading.antt =====
-- The blocking calls under apis whose upcall comes while the command runs: apis/sensors and
-- apis/peripherals/adc on the fake kernel, where the driver has a value at hand. The scope subscribes,
-- the command queues the upcall, the first yield runs it, and the scope unsubscribes.
pub mod Waits
pub mod Fails
use libtock_rs.Common.{
  ℕ, zero, suc, ◌<◌, ◌^◌, ◌≡◌, ◌≢◌, refl, ◌∙◌, ap, Option, none, some, [], ◌∷◌, lookup, Result, ok,
  err, Run, returns, arith, bind-returns, ==-refl, ◌>>=◌, pure,
}
use libtock_rs.Platform.ErrorCode.{ErrorCode}
use libtock_rs.Platform.Syscalls.{Config, Fallible}
use libtock_rs.Platform.Syscalls
use libtock_rs.Platform.Share.{scope}
use libtock_rs.Platform.AsyncCall.{Place}
use libtock_rs.Apis.Blocking.{
  wait_while_none, wait_or_fail, wait_if_ok, result_of_cell, read_waited, try_wait, try_start,
  wait_if_started, start_if_registered,
}
use libtock_rs.Unittest.KernelData.{KernelData, DriverData, Args, SyscallLogEntry}
use libtock_rs.Unittest.World.{World, Env, hosted}
use libtock_rs.Unittest.Syscalls.Enter.{enter, rest}
use libtock_rs.Unittest.Syscalls.Subscribe.{fn_register, purge}
use libtock_rs.Unittest.Syscalls.Subscribe.Effect.{registered, subscribed, the_id}
use libtock_rs.Unittest.Syscalls.Yield.{invoke}
use libtock_rs.Unittest.Syscalls.Yield.Fifo.{yield_wait_runs}
use libtock_rs.Unittest.Fake.{fake_syscalls}
use libtock_rs.Unittest.Fake.Command.{IsReturn}
use libtock_rs.Unittest.Fake.BlockOn.{fake_yield_wait}
use libtock_rs.Unittest.Fake.Unsubscribe.{unsubscribe_lem, null_upcall}
use libtock_rs.Platform.CommandReturn.Data.{to_result, success_unit, failure_code}
use libtock_rs.Unittest.CommandReturn.{success, failure}
use libtock_rs.Unittest.Fake.Results.{command_gives, success-IsReturn, success-result}
use libtock_rs.Unittest.Fake.Subscribed.{
  registered_upcall, empty_queue, entry, subscribed_kernel, subscribed_world, listening, subscribes,
  listens,
}

-- A command of an interface whose success has no value.
abbrev pub unit_command : {H : Type 0} → Env H → ℕ → ℕ → ℕ → ℕ → Fallible (World H) (Unit {0})
unit_command env n c a b = do
  r ← Syscalls.command (fake_syscalls env) n c a b
  pure (to_result success_unit failure_code r)

-- The driver's upcall is null, and none is queued.
abbrev pub IsReleased : {H : Type 0} → ℕ → World H → Type 0
IsReleased n w =
    (k : KernelData) × (w.kernel_data ≡ some k)
    × (k.upcall_queue ≡ [])
    × (registered n 0 k.drivers ≡ some null_upcall)

pub scope-returns :
    {W A : Type 0} (drop : Run W (Unit {0})) (fcn : Run W A) {w v v' : W} {a : A}
    → fcn w ≡ returns (a, v)
    → drop v ≡ returns (tt, v')
    → scope drop fcn w ≡ returns (a, v')
unfolding scope
scope-returns drop fcn run end = bind-returns fcn _ run ∙ bind-returns drop _ end

-- A blocking call and the world it runs in: the driver `n` is there and has no upcall under the number
-- 0, the listener `fcn` with its `payload` stores what `decode` makes of the upcall's arguments in a cell,
-- and the command `c` with the arguments `a` and `b` leaves the state `host` and queues the upcall with
-- the arguments `args`.
pub record Round (H V : Type 0) : Type 0 where
  pub env : Env H
  pub cfg : Config (World H)
  pub n : ℕ
  pub c : ℕ
  pub a : ℕ
  pub b : ℕ
  pub fcn : ℕ
  pub payload : ℕ
  pub w : World H
  pub k : KernelData
  pub d : DriverData
  pub n32 : n < 2 ^ 32
  pub hk : w.kernel_data ≡ some k
  pub he : k.expected_syscalls ≡ []
  pub hd : lookup n k.drivers ≡ some d
  pub h : 0 < d.num_upcalls
  pub hn : fn_register (lookup 0 d.upcalls) ≡ 0
  pub cell : Place H (Option V)
  pub decode : Args → V
  pub calls :
      (args : Args) (v : World H)
      → env.upcall_fn fcn args payload v ≡ returns (tt, (hosted cell).put (some (decode args)) v)
  pub args : Args
  pub host : H
  pub unset : cell.get host ≡ none

module _ {H V : Type 0} (r : Round H V) where
  -- The world at the beginning of the scope, and when the upcall is registered.
  abbrev pub begun : World H
  begun = record r.w { host = r.cell.put none r.w.host }

  abbrev pub listening_world : World H
  listening_world =
      subscribed_world r.env r.cfg r.n 0 r.fcn r.payload begun r.k r.d r.n32 (omega arith) r.hk r.he
        r.hd r.h r.hn

  abbrev pub listening_kernel : KernelData
  listening_kernel =
      subscribed_kernel r.env r.cfg r.n 0 r.fcn r.payload begun r.k r.d r.n32 (omega arith) r.hk
        r.he r.hd r.h r.hn

  abbrev pub listening_driver : DriverData
  listening_driver =
      listening r.env r.cfg r.n 0 r.fcn r.payload begun r.k r.d r.n32 (omega arith) r.hk r.he r.hd
        r.h r.hn

  -- The kernel's data in the command, and the world after it.
  abbrev pub command_kernel : KernelData
  command_kernel = enter (SyscallLogEntry.command r.n r.c r.a r.b) listening_kernel

  abbrev pub queued_kernel : KernelData
  queued_kernel = record command_kernel { upcall_queue = entry r.n 0 r.args r.fcn r.payload ∷ [] }

  abbrev pub queued : World H
  queued = record { kernel_data = some queued_kernel; host = r.host }

  abbrev pub yielded_kernel : KernelData
  yielded_kernel = record (enter SyscallLogEntry.yield_wait queued_kernel) { upcall_queue = [] }

  abbrev pub called : World H
  called = record {
    kernel_data = some yielded_kernel;
    host = r.cell.put (some (r.decode r.args)) r.host;
  }

  abbrev pub released_kernel : KernelData
  released_kernel = subscribed r.n 0 yielded_kernel null_upcall listening_driver

  abbrev pub released : World H
  released = record called { kernel_data = some released_kernel }

  abbrev pub register : Fallible (World H) (Unit {0})
  register = Syscalls.subscribe (fake_syscalls r.env) r.cfg r.n 0 r.fcn r.payload

  pub registers :
      Syscalls.subscribe (fake_syscalls r.env) r.cfg r.n 0 r.fcn r.payload begun
      ≡ returns (ok tt, listening_world)
  registers =
      subscribes r.env r.cfg r.n 0 r.fcn r.payload begun r.k r.d r.n32 (omega arith) r.hk r.he r.hd
        r.h r.hn

  abbrev pub command_world : World H
  command_world = record begun { kernel_data = some command_kernel }

  pub present : lookup r.n command_kernel.drivers ≡ some listening_driver
  present =
      listens r.env r.cfg r.n 0 r.fcn r.payload begun r.k r.d r.n32 (omega arith) r.hk r.he r.hd r.h
        r.hn

  pub present_upcall :
      r.fcn ≢ 0
      → lookup 0 listening_driver.upcalls
        ≡ some (record { fn_pointer = some r.fcn; payload = r.payload })
  present_upcall =
      registered_upcall r.env r.cfg r.n 0 r.fcn r.payload begun r.k r.d r.n32 (omega arith) r.hk
        r.he r.hd r.h r.hn

  pub none_queued : r.k.upcall_queue ≡ [] → command_kernel.upcall_queue ≡ []
  none_queued =
      empty_queue r.env r.cfg r.n 0 r.fcn r.payload begun r.k r.d r.n32 (omega arith) r.hk r.he r.hd
        r.h r.hn

  -- The command, where the driver answers with success and has queued the upcall.
  pub starts :
      r.c < 2 ^ 32
      → r.a < 2 ^ 32
      → r.b < 2 ^ 32
      → r.env.command r.d.driver r.c r.a r.b command_world ≡ returns (success, queued)
      → unit_command r.env r.n r.c r.a r.b listening_world ≡ returns (ok tt, queued)
  starts hc ha hb run =
      command_gives r.env r.n r.c r.a r.b listening_world listening_kernel r.n32 hc ha hb refl
        (ap rest r.he) listening_driver present (to_result success_unit failure_code) success
        (ok tt) queued run success-IsReturn success-result

  pub yields : Syscalls.yield_wait (fake_syscalls r.env) queued ≡ returns (tt, called)
  yields =
      fake_yield_wait r.env queued
      ∙ yield_wait_runs r.env queued queued_kernel (entry r.n 0 r.args r.fcn r.payload) [] called
          refl (ap (λ es. rest (rest es)) r.he) refl
          (unfold invoke in r.calls r.args (record called { host = r.host }))

  pub unsubscribes :
      Syscalls.unsubscribe (fake_syscalls r.env) r.n 0 called ≡ returns (tt, released)
  unsubscribes =
      (unsubscribe_lem r.env r.n 0 called yielded_kernel listening_driver r.n32 (omega arith) refl
        (ap (λ es. rest (rest (rest es))) r.he)
        (listens r.env r.cfg r.n 0 r.fcn r.payload begun r.k r.d r.n32 (omega arith) r.hk r.he r.hd
          r.h r.hn)
        r.h).0

  pub released-IsReleased : IsReleased r.n released
  released-IsReleased = (
    released_kernel,
    refl,
    refl,
    (unsubscribe_lem r.env r.n 0 called yielded_kernel listening_driver r.n32 (omega arith) refl
            (ap (λ es. rest (rest (rest es))) r.he)
            (listens r.env r.cfg r.n 0 r.fcn r.payload begun r.k r.d r.n32 (omega arith) r.hk r.he
              r.hd r.h r.hn)
            r.h).3
          r.n 0
        ∙ rw (==-refl r.n) refl,
  )
