-- ===== src/Unittest/Fake/Alarm/Blocks.antt =====
-- `sleep_for` of apis/peripherals/alarm/src/lib.rs on the fake kernel, with the fake alarm of
-- unittest/src/fake/alarm/mod.rs that fires as soon as it is set.
use libtock_rs.Common.{
  ℕ, suc, ◌+◌, ◌%◌, ◌<◌, ◌^◌, ◌≡◌, ◌≢◌, refl, ◌∙◌, ap, false, Option, none, some, [], lookup,
  Result, ok, returns, arith, bind-returns, ◌>>=◌,
}
use libtock_rs.Platform.CommandReturn.Data
use libtock_rs.Platform.CommandReturn.Data.{to_result, failure_code}
use libtock_rs.Platform.Syscalls.{Config}
use libtock_rs.Platform.Syscalls
use libtock_rs.Platform.AsyncCall.{Place}
use libtock_rs.Platform.ErrorCode.{ErrorCode}
use libtock_rs.Apis.Blocking.{Blocking, yield_until_called}
use libtock_rs.Apis.Alarm as Api
use libtock_rs.Unittest.CommandReturn.{success_u32}
use libtock_rs.Unittest.KernelData.{KernelData, DriverData, Args, SyscallLogEntry}
use libtock_rs.Unittest.World.{World, Env, hosted}
use libtock_rs.Unittest.Syscalls.Enter.{enter, rest}
use libtock_rs.Unittest.Syscalls.Subscribe.{fn_register}
use libtock_rs.Unittest.Fake.{fake_syscalls}
use libtock_rs.Unittest.Fake.Results.{command_gives, word-IsReturn, word-result}
use libtock_rs.Unittest.Fake.Reading.{
  Round, listening_world, listening_kernel, listening_driver, command_world, command_kernel, queued,
  released, register, registers, unsubscribes, present, present_upcall, none_queued, scope-returns,
  IsReleased, released-IsReleased,
}
use libtock_rs.Unittest.Fake.Reading.Waits.{loops}
use libtock_rs.Unittest.Fake.Alarm.{Alarm, command}
use libtock_rs.Unittest.Fake.Alarm.Fires.{set_relative_fires}

module _ {H : Type 0} (env : Env H) (cfg : Config (World H)) (fcn payload fuel : ℕ)
    (to_ticks : ℕ → ℕ) (place : Place H Alarm) (cell : Place H (Option (ℕ × ℕ))) (w : World H)
    (k : KernelData) (d : DriverData) (alarm : Alarm) (hk : w.kernel_data ≡ some k)
    (he : k.expected_syscalls ≡ []) (hq : k.upcall_queue ≡ []) (hd : lookup 0 k.drivers ≡ some d)
    (h : 0 < d.num_upcalls) (hn : fn_register (lookup 0 d.upcalls) ≡ 0) (hf : fcn ≢ 0)
    (calls : (args : Args) (v : World H)
      → env.upcall_fn fcn args payload v
        ≡ returns (tt, (hosted cell).put (some (args.0, args.1)) v))
    (is_alarm : (c a b : ℕ) (v : World H) → env.command d.driver c a b v ≡ command place c a b v)
    (cell_apart : (a : Alarm) (x : H) → cell.get (place.put a x) ≡ cell.get x)
    (alarm_apart : (o : Option (ℕ × ℕ)) (x : H) → place.get (cell.put o x) ≡ place.get x)
    (hs : place.get w.host ≡ record alarm { deferred = false; share_ref = 0 })
    (freq32 : alarm.frequency_hz < 2 ^ 32) (ticks32 : to_ticks alarm.frequency_hz < 2 ^ 32) where
  abbrev ticks : ℕ
  ticks = to_ticks alarm.frequency_hz

  -- The kernel's data and the world after the query of the frequency.
  abbrev asked_kernel : KernelData
  asked_kernel = enter (SyscallLogEntry.command 0 1 0 0) k

  abbrev asked : World H
  asked = record w { kernel_data = some asked_kernel }

  asks : Api.get_frequency (fake_syscalls env) w ≡ returns (ok alarm.frequency_hz, asked)
  unfolding Api.get_frequency command
  asks =
      command_gives env 0 1 0 0 w k (omega arith) (omega arith) (omega arith) (omega arith) hk he d
        hd (to_result Data.success_u32 failure_code) (success_u32 alarm.frequency_hz)
        (ok alarm.frequency_hz) asked
        (is_alarm 1 0 0 asked ∙ ap (λ (a : Alarm). returns (success_u32 a.frequency_hz, asked)) hs)
        (word-IsReturn alarm.frequency_hz freq32) (word-result alarm.frequency_hz)

  -- The time at which the alarm expires, and its state when it is set and when it has fired.
  abbrev wake : H → ℕ
  wake x = ((place.get x).now + ticks) % 2 ^ 32

  abbrev fired_host : H → H
  fired_host x =
      let armed : Alarm = record (place.get x) { now = wake x; expiration = some (wake x) } in
      place.put (record armed { expiration = none }) (place.put armed x)

  abbrev begun_host : H
  begun_host = cell.put none w.host

  abbrev round : Round H (ℕ × ℕ)
  round = record {
    env = env;
    cfg = cfg;
    n = 0;
    c = 5;
    a = ticks;
    b = 0;
    fcn = fcn;
    payload = payload;
    w = asked;
    k = asked_kernel;
    d = d;
    n32 = omega arith;
    hk = refl;
    he = ap rest he;
    hd = hd;
    h = h;
    hn = hn;
    cell = cell;
    decode = λ args. (args.0, args.1);
    calls = calls;
    args = (wake begun_host, 0, 0);
    host = fired_host begun_host;
    unset = cell_apart _ _ ∙ cell_apart _ _ ∙ cell.get-put none w.host;
  }

  state : place.get begun_host ≡ record alarm { deferred = false; share_ref = 0 }
  state = alarm_apart none w.host ∙ hs

  wake32 : wake begun_host < 2 ^ 32
  wake32 = omega arith

  fires :
      command place 5 ticks 0 (command_world round)
      ≡ returns (success_u32 (wake begun_host), queued round)
  fires =
      (set_relative_fires place ticks 0 (command_world round) (command_kernel round)
        (listening_driver round) fcn payload refl (present round) h (present_upcall round hf)
        (none_queued round hq) (ap (λ (a : Alarm). a.deferred) state)
        (ap (λ (a : Alarm). a.share_ref) state)).0

  sets :
      (Api.sleep_op (fake_syscalls env) ticks).start (listening_world round)
      ≡ returns (ok tt, queued round)
  sets =
      command_gives env 0 5 ticks 0 (listening_world round) (listening_kernel round) (omega arith)
        (omega arith) ticks32 (omega arith) refl (ap rest (ap rest he)) (listening_driver round)
        (present round) (λ r. Api.forget (to_result Data.success_u32 failure_code r))
        (success_u32 (wake begun_host)) (ok tt) (queued round)
        (is_alarm 5 ticks 0 (command_world round) ∙ fires) (word-IsReturn (wake begun_host) wake32)
        (ap Api.forget (word-result (wake begun_host)))

  abbrev set_alarm : Result (Unit {0}) ErrorCode → Blocking (World H) (Result (Unit {0}) ErrorCode)
  set_alarm = Api.set_alarm (fake_syscalls env) cfg fcn payload (suc fuel) (hosted cell) ticks

  sleeps :
      Api.sleep_ticks (fake_syscalls env) cfg fcn payload (suc fuel) (hosted cell) ticks asked
      ≡ returns (some (ok tt), released round)
  unfolding Api.sleep_ticks
  sleeps =
      scope-returns (Syscalls.unsubscribe (fake_syscalls env) 0 0) (register round >>= set_alarm)
        (bind-returns (register round) set_alarm (registers round)
          ∙ bind-returns (Api.sleep_op (fake_syscalls env) ticks).start
              (Api.await_alarm (fake_syscalls env) cfg fcn payload (suc fuel) (hosted cell)) sets
          ∙ bind-returns (yield_until_called (hosted cell) (fake_syscalls env) (suc fuel))
              (Api.slept (fake_syscalls env) cfg fcn payload (suc fuel) (hosted cell))
              (loops round fuel))
        (unsubscribes round)

  rests :
      (x : H) → place.get (fired_host x) ≡ record (place.get x) { now = wake x; expiration = none }
  rests x =
      place.get-put (record (place.get x) { now = wake x; expiration = none })
        (place.put (record (place.get x) { now = wake x; expiration = some (wake x) }) x)

  -- `sleep_for` on the fake kernel, with a fake alarm that fires as soon as it is set, succeeds within one
  -- round of its loop: the alarm's time is then that of its expiration, which wraps around at
  -- `2 ^ 32`, it is not armed, nothing is queued, and its upcall is null. The alarm is registered as the
  -- driver 0, which has no upcall yet; no system call is expected and no upcall is queued; the
  -- frequency and the ticks fit in 32 bits; the cell is apart from the alarm.
  pub sleep_for_returns :
      (v : World H) × (Api.sleep_for
          (fake_syscalls env)
          cfg
          fcn
          payload
          (suc fuel)
          (hosted cell)
          to_ticks
          w
        ≡ returns (some (ok tt), v))
      × (place.get v.host ≡ record alarm {
        now = (alarm.now + to_ticks alarm.frequency_hz) % 2 ^ 32;
        expiration = none;
        deferred = false;
        share_ref = 0;
      })
      × IsReleased 0 v
  unfolding Api.sleep_for
  sleep_for_returns = (
    released round,
    bind-returns (Api.get_frequency (fake_syscalls env))
          (Api.with_freq (fake_syscalls env) cfg fcn payload (suc fuel) (hosted cell) to_ticks) asks
        ∙ sleeps,
    alarm_apart (some (wake begun_host, 0)) (fired_host begun_host)
        ∙ rests begun_host
        ∙ ap (λ (a : Alarm). record a { now = (a.now + ticks) % 2 ^ 32; expiration = none }) state,
    released-IsReleased round,
  )
