-- ===== src/Tests/Readings.antt =====
-- Blocking reads of the fake sensors, from apis/sensors down to unittest/src/fake.
use libtock_rs.Common.{ℕ, ◌≡◌, refl, Option, some, none, ok, returns, arith, ◌>>◌}
use libtock_rs.Apis.Temperature
use libtock_rs.Unittest.World.{World, Env, hosted}
use libtock_rs.Unittest.Fake.{fake_syscalls}
use libtock_rs.Unittest.Fake.Reading.{IsReleased}
use libtock_rs.Unittest.Fake.Sensor
use libtock_rs.Unittest.Fake.Sensor.{Sensor}
use libtock_rs.Unittest.Fake.Sensor.Reads
use libtock_rs.Unittest.Fake.Sensor.Sync.{read_temperature_returns}
use libtock_rs.Tests.Hosts.{driver_place, cell_place, env, cfg, data', kernel, nine}

abbrev sensor_env : ℕ → Env (Sensor × Option ℕ)
sensor_env n =
    env (Sensor.info n) (Sensor.command driver_place)
      (λ args. Temperature.listener (hosted cell_place) args)

abbrev sensor_start : ℕ → World (Sensor × Option ℕ)
sensor_start n = record {
  kernel_data = some (kernel n);
  host = (record Sensor.new { share_ref = n }, none);
}

read_temperature_returns_example :
    (w' : World (Sensor × Option ℕ)) × ((Sensor.set_value_sync driver_place 2150
          >> Temperature.read_temperature_sync
              (fake_syscalls (sensor_env 393216))
              cfg
              9
              1
              (hosted cell_place)
              1)
        (sensor_start 393216)
      ≡ returns (some (ok 2150), w'))
    × (w'.host.0 ≡ Reads.resting 393216 none)
    × IsReleased 393216 w'
read_temperature_returns_example =
    read_temperature_returns (sensor_env 393216) cfg 9 1 2150 0 (sensor_start 393216)
      (kernel 393216) data' refl refl (omega arith) refl refl nine driver_place cell_place
      (λ s v. refl) (λ o v. refl) (λ c a b v. refl) none (λ args v. refl) refl refl
