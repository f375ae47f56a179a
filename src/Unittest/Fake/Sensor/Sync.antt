-- ===== src/Unittest/Fake/Sensor/Sync.antt =====
-- The blocking calls of apis/sensors/temperature/src/lib.rs, ambient_light/src/lib.rs and
-- sound_pressure/src/lib.rs on the fake kernel, with the fake sensors of
-- unittest/src/fake/temperature/mod.rs and its likes. `set_value_sync` has put a value at hand.
use libtock_rs.Common.{
  ℕ, suc, ◌<◌, ◌^◌, ◌≡◌, ◌≢◌, ◌∙◌, ap, Option, none, some, [], lookup, ok, returns, ◌>>◌, err,
  arith, bind-returns,
}
use libtock_rs.Platform.ErrorCode.{busy, fail}
use libtock_rs.Platform.Syscalls.{Config}
use libtock_rs.Platform.AsyncCall.{Place}
use libtock_rs.Apis.Temperature
use libtock_rs.Apis.AmbientLight
use libtock_rs.Apis.SoundPressure
use libtock_rs.Unittest.KernelData.{KernelData, DriverData, Args}
use libtock_rs.Unittest.World.{World, Env, hosted}
use libtock_rs.Unittest.Syscalls.Subscribe.{fn_register}
use libtock_rs.Unittest.Fake.{fake_syscalls}
use libtock_rs.Unittest.Fake.Reading.Waits.{wait_if_ok_returns, wait_or_fail_returns}
use libtock_rs.Unittest.Fake.Reading.{
  Round, unit_command, listening_world, queued, IsReleased, released, released-IsReleased,
}
use libtock_rs.Unittest.Fake.Sensor.{Sensor, set_value_sync, command, store}
use libtock_rs.Unittest.Fake.Sensor.Reads.{resting, round, sensor_starts, rests}

checked_lem : (value : ℕ) → value < 256 → SoundPressure.checked value ≡ ok value
unfolding SoundPressure.checked
checked_lem value h = ground arith

module _ {H : Type 0} (env : Env H) (cfg : Config (World H)) (fcn payload value fuel : ℕ)
    (w : World H) (k : KernelData) (d : DriverData) (hk : w.kernel_data ≡ some k)
    (he : k.expected_syscalls ≡ []) (h : 0 < d.num_upcalls)
    (hn : fn_register (lookup 0 d.upcalls) ≡ 0) (hq : k.upcall_queue ≡ []) (hf : fcn ≢ 0)
    (sensor : Place H Sensor) (cell : Place H (Option ℕ))
    (cell_apart : (s : Sensor) (v : H) → cell.get (sensor.put s v) ≡ cell.get v)
    (sensor_apart : (o : Option ℕ) (v : H) → sensor.get (cell.put o v) ≡ sensor.get v)
    (is_sensor : (c a b : ℕ) (v : World H) → env.command d.driver c a b v ≡ command sensor c a b v)
    (before : Option ℕ) where
  abbrev at_hand_world : ℕ → World H
  at_hand_world n = store sensor (resting n (some value)) w

  -- The sensor with the driver number `n` after `set_value_sync`.
  set_value_sync_lem :
      (n : ℕ)
      → sensor.get w.host ≡ resting n before
      → set_value_sync sensor value w ≡ returns (tt, at_hand_world n)
  unfolding set_value_sync
  set_value_sync_lem n e =
      ap
        (λ (s : Sensor). returns (tt, store sensor (record s { upcall_on_command = some value }) w))
        e

  abbrev StoresFirst : Type 0
  StoresFirst =
      (args : Args) (v : World H)
      → env.upcall_fn fcn args payload v ≡ returns (tt, (hosted cell).put (some args.0) v)

  abbrev the_round : (n : ℕ) → n < 2 ^ 32 → lookup n k.drivers ≡ some d → StoresFirst → Round H ℕ
  the_round n n32 hd calls =
      round env cfg n fcn payload value (at_hand_world n) k d n32 hk he hd h hn hq hf sensor cell
        cell_apart sensor_apart is_sensor calls (sensor.get-put _ _)

  the_round_starts :
      (n : ℕ) (n32 : n < 2 ^ 32) (hd : lookup n k.drivers ≡ some d) (calls : StoresFirst)
      → unit_command env n 1 0 0 (listening_world (the_round n n32 hd calls))
        ≡ returns (ok tt, queued (the_round n n32 hd calls))
  the_round_starts n n32 hd calls =
      sensor_starts env cfg n fcn payload value (at_hand_world n) k d n32 hk he hd h hn hq hf sensor
        cell cell_apart sensor_apart is_sensor calls (sensor.get-put _ _)

  the_round_rests :
      (n : ℕ) (n32 : n < 2 ^ 32) (hd : lookup n k.drivers ≡ some d) (calls : StoresFirst)
      → sensor.get (released (the_round n n32 hd calls)).host ≡ resting n none
  the_round_rests n n32 hd calls =
      rests env cfg n fcn payload value (at_hand_world n) k d n32 hk he hd h hn hq hf sensor cell
        cell_apart sensor_apart is_sensor calls (sensor.get-put _ _)

  -- After `set_value_sync` of a temperature, `read_temperature_sync` returns it with one round of fuel,
  -- and then the sensor is not busy and has no value at hand, and the driver's upcall is null and not
  -- queued. No upcall that is not null was registered and none queued, no system call is expected, the
  -- listener is not null, and the states of the sensor and of the cell are apart.
  pub read_temperature_returns :
      (calls : (args : Args) (v : World H)
        → env.upcall_fn fcn args payload v ≡ Temperature.listener (hosted cell) args v)
      → lookup Temperature.driver_num k.drivers ≡ some d
      → sensor.get w.host ≡ resting Temperature.driver_num before
      → (w' : World H) × ((set_value_sync sensor value
              >> Temperature.read_temperature_sync
                  (fake_syscalls env)
                  cfg
                  fcn
                  payload
                  (hosted cell)
                  (suc fuel))
            w
          ≡ returns (some (ok value), w'))
        × (sensor.get w'.host ≡ resting Temperature.driver_num none)
        × IsReleased Temperature.driver_num w'
  unfolding Temperature.read_temperature_sync Temperature.register_listener
      Temperature.read_temperature
  read_temperature_returns calls hd e =
      let r = the_round Temperature.driver_num (omega arith) hd calls in
      (
        released r,
        bind-returns (set_value_sync sensor value)
              (λ _.
                Temperature.read_temperature_sync (fake_syscalls env) cfg fcn payload (hosted cell)
                  (suc fuel))
              (set_value_sync_lem Temperature.driver_num e)
            ∙ wait_if_ok_returns r (unit_command env Temperature.driver_num 1 0 0)
                (the_round_starts Temperature.driver_num (omega arith) hd calls) (err busy)
                (λ v. ok v) fuel,
        the_round_rests Temperature.driver_num (omega arith) hd calls,
        released-IsReleased r,
      )

  -- After `set_value_sync` of an intensity, `read_intensity_sync` returns it with one round of fuel, and
  -- then the sensor is not busy and has no value at hand, and the driver's upcall is null and not queued.
  -- No upcall that is not null was registered and none queued, no system call is expected, the
  -- listener is not null, and the states of the sensor and of the cell are apart.
  pub read_intensity_returns :
      (calls : (args : Args) (v : World H)
        → env.upcall_fn fcn args payload v ≡ AmbientLight.listener (hosted cell) args v)
      → lookup AmbientLight.driver_num k.drivers ≡ some d
      → sensor.get w.host ≡ resting AmbientLight.driver_num before
      → (w' : World H) × ((set_value_sync sensor value
              >> AmbientLight.read_intensity_sync
                  (fake_syscalls env)
                  cfg
                  fcn
                  payload
                  (hosted cell)
                  (suc fuel))
            w
          ≡ returns (some (ok value), w'))
        × (sensor.get w'.host ≡ resting AmbientLight.driver_num none)
        × IsReleased AmbientLight.driver_num w'
  unfolding AmbientLight.read_intensity_sync AmbientLight.register_listener
      AmbientLight.read_intensity
  read_intensity_returns calls hd e =
      let r = the_round AmbientLight.driver_num (omega arith) hd calls in
      (
        released r,
        bind-returns (set_value_sync sensor value)
              (λ _.
                AmbientLight.read_intensity_sync (fake_syscalls env) cfg fcn payload (hosted cell)
                  (suc fuel))
              (set_value_sync_lem AmbientLight.driver_num e)
            ∙ wait_or_fail_returns r (unit_command env AmbientLight.driver_num 1 0 0)
                (the_round_starts AmbientLight.driver_num (omega arith) hd calls) (err busy)
                (λ v. ok v) fuel,
        the_round_rests AmbientLight.driver_num (omega arith) hd calls,
        released-IsReleased r,
      )

  -- After `set_value_sync` of a pressure below 256, `read_sync` returns it with one round of fuel, and
  -- then the sensor is not busy and has no value at hand, and the driver's upcall is null and not queued.
  -- No upcall that is not null was registered and none queued, no system call is expected, the
  -- listener is not null, and the states of the sensor and of the cell are apart.
  pub read_pressure_returns :
      (calls : (args : Args) (v : World H)
        → env.upcall_fn fcn args payload v ≡ SoundPressure.listener (hosted cell) args v)
      → lookup SoundPressure.driver_num k.drivers ≡ some d
      → sensor.get w.host ≡ resting SoundPressure.driver_num before
      → value < 256
      → (w' : World H) × ((set_value_sync sensor value
              >> SoundPressure.read_sync
                  (fake_syscalls env)
                  cfg
                  fcn
                  payload
                  (hosted cell)
                  (suc fuel))
            w
          ≡ returns (some (ok value), w'))
        × (sensor.get w'.host ≡ resting SoundPressure.driver_num none)
        × IsReleased SoundPressure.driver_num w'
  unfolding SoundPressure.read_sync SoundPressure.register_listener SoundPressure.read
  read_pressure_returns calls hd e small =
      let r = the_round SoundPressure.driver_num (omega arith) hd calls in
      (
        released r,
        bind-returns (set_value_sync sensor value)
              (λ _.
                SoundPressure.read_sync (fake_syscalls env) cfg fcn payload (hosted cell)
                  (suc fuel))
              (set_value_sync_lem SoundPressure.driver_num e)
            ∙ wait_or_fail_returns r (unit_command env SoundPressure.driver_num 1 0 0)
                (the_round_starts SoundPressure.driver_num (omega arith) hd calls) (err fail)
                SoundPressure.checked fuel
            ∙ ap (λ x. returns (some x, released r)) (checked_lem value small),
        the_round_rests SoundPressure.driver_num (omega arith) hd calls,
        released-IsReleased r,
      )
