-- ===== src/Tests/Tones.antt =====
-- A test of apis/interface/buzzer/src/lib.rs: a tone of 440 Hz for 250 milliseconds.
use libtock_rs.Common.{ℕ, ◌≡◌, refl, none, some, Option, ok, returns, arith}
use libtock_rs.Apis.Buzzer as Api
use libtock_rs.Unittest.World.{World, Env, hosted}
use libtock_rs.Unittest.Fake.{fake_syscalls}
use libtock_rs.Unittest.Fake.Reading.{IsReleased}
use libtock_rs.Unittest.Fake.Buzzer.{Buzzer, info, command}
use libtock_rs.Unittest.Fake.Buzzer.Sync.{idle, tone_sync_returns}
use libtock_rs.Tests.Hosts as Hosts
use libtock_rs.Tests.Hosts.{driver_place, cell_place, cfg, kernel, data', nine}

abbrev Host : Type 0
Host = Buzzer × Option ℕ

abbrev buzzer_env : Env Host
buzzer_env =
    Hosts.env info (command driver_place)
      (λ args w. returns (tt, (hosted cell_place).put (some (args.0)) w))

abbrev begin : World Host
begin = record { kernel_data = some (kernel 589824); host = (idle (some 440) (some 250), none) }

tone_sync_returns_example :
    (v : World Host) × (Api.tone_sync
        (fake_syscalls buzzer_env)
        cfg
        9
        1
        (hosted cell_place)
        1
        440
        250
        begin
      ≡ returns (some (ok tt), v))
    × (driver_place.get v.host ≡ idle none none)
    × IsReleased 589824 v
tone_sync_returns_example =
    tone_sync_returns buzzer_env cfg 9 1 0 440 250 440 250 driver_place cell_place begin
      (kernel 589824) data' refl refl refl refl (omega arith) refl nine (omega arith)
      (λ args v. refl) (λ c a b v. refl) (λ s x. refl) (λ o x. refl) refl
