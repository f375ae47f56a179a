-- ===== src/Tests/Alarms.antt =====
-- A test of `sleep_for` of apis/peripherals/alarm/src/lib.rs with a fake alarm of 1000 Hz.
use libtock_rs.Common.{ℕ, ◌≡◌, refl, false, none, some, ok, returns, Option, arith}
use libtock_rs.Apis.Alarm as Api
use libtock_rs.Unittest.World.{World, Env, hosted}
use libtock_rs.Unittest.Fake.{fake_syscalls}
use libtock_rs.Unittest.Fake.Reading.{IsReleased}
use libtock_rs.Unittest.Fake.Alarm.{Alarm, build, info, command}
use libtock_rs.Unittest.Fake.Alarm.Blocks.{sleep_for_returns}
use libtock_rs.Tests.Hosts as Hosts
use libtock_rs.Tests.Hosts.{driver_place, cell_place, cfg, kernel, data', nine}

abbrev Host : Type 0
Host = Alarm × Option (ℕ × ℕ)

abbrev alarm_env : Env Host
alarm_env =
    Hosts.env info (command driver_place)
      (λ args w. returns (tt, (hosted cell_place).put (some (args.0, args.1)) w))

abbrev begin : World Host
begin = record { kernel_data = some (kernel 0); host = (build 1000 false, none) }

-- A sleep of seven ticks.
sleep_for_returns_example :
    (v : World Host) × (Api.sleep_for
        (fake_syscalls alarm_env)
        cfg
        9
        1
        1
        (hosted cell_place)
        (λ freq. 7)
        begin
      ≡ returns (some (ok tt), v))
    × (driver_place.get v.host ≡ record (build 1000 false) { now = 7 })
    × IsReleased 0 v
sleep_for_returns_example =
    sleep_for_returns alarm_env cfg 9 1 0 (λ freq. 7) driver_place cell_place begin (kernel 0) data'
      (build 1000 false) refl refl refl refl (omega arith) refl nine (λ args v. refl)
      (λ c a b v. refl) (λ a x. refl) (λ o x. refl) refl (omega arith) (omega arith)
