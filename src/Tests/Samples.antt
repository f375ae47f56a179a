-- ===== src/Tests/Samples.antt =====
-- Blocking reads of the fake ADC with two channels and of the fake proximity sensor, from apis down to
-- unittest/src/fake.
use libtock_rs.Common.{
  ℕ, ◌≡◌, refl, ◌==◌, if◌then◌else◌, inr, false, Option, some, none, [], ◌∷◌, lookup, ok, err,
  returns, arith, ◌>>◌,
}
use libtock_rs.Platform.ErrorCode.{no_device}
use libtock_rs.Apis.Adc
use libtock_rs.Apis.Proximity
use libtock_rs.Unittest.World.{World, Env, hosted}
use libtock_rs.Unittest.Fake.{fake_syscalls}
use libtock_rs.Unittest.Fake.Reading.{IsReleased}
use libtock_rs.Unittest.Fake.Adc.{Adc, new_with_channels, info, command, set_value_sync_on}
use libtock_rs.Unittest.Fake.Adc.Sync.{read_single_sample_returns, read_single_sample_no_device}
use libtock_rs.Unittest.Fake.Proximity.{Proximity, new, set_value_sync}
use libtock_rs.Unittest.Fake.Proximity as FakeProximity
use libtock_rs.Unittest.Fake.Proximity.Detects.{resting}
use libtock_rs.Unittest.Fake.Proximity.Sync.{wait_for_value_returns}
use libtock_rs.Tests.Hosts.{driver_place, cell_place, env, cfg, data', kernel, nine}

abbrev adc_env : Env (Adc × Option ℕ)
adc_env = env info (command driver_place) (λ args. Adc.listener (hosted cell_place) args)

-- Channel 0 has a value at hand.
abbrev adc_start : World (Adc × Option ℕ)
adc_start = record {
  kernel_data = some (kernel 5);
  host = (record (new_with_channels 2) { share_ref = 5; upcall_on_command = (0, 7) ∷ [] }, none);
}

-- The sample does not fit in 16 bits.
read_single_sample_returns_example :
    (w' : World (Adc × Option ℕ)) × ((set_value_sync_on driver_place 1 65540
          >> Adc.read_single_sample_sync (fake_syscalls adc_env) cfg 9 1 (hosted cell_place) 1 1)
        adc_start
      ≡ returns (some (ok 4), w'))
    × (w'.host.0.busy ≡ false)
    × (w'.host.0.last_channel ≡ some 1)
    × ((other : ℕ)
        → lookup other w'.host.0.upcall_on_command
          ≡ (if 1 == other then none else lookup other ((0, 7) ∷ [])))
    × IsReleased 5 w'
read_single_sample_returns_example =
    read_single_sample_returns adc_env cfg 9 1 0 2 1 ((0, 7) ∷ []) none adc_start (kernel 5) data'
      refl refl refl (omega arith) refl refl driver_place cell_place (λ s v. refl) (λ o v. refl)
      (λ c a b v. refl) (λ args v. refl) (omega arith) refl 65540 nine (omega arith)

read_single_sample_no_device_example :
    (w' : World (Adc × Option ℕ)) × (Adc.read_single_sample_sync
        (fake_syscalls adc_env)
        cfg
        9
        1
        (hosted cell_place)
        0
        2
        adc_start
      ≡ returns (some (err no_device), w'))
    × (w'.host.0 ≡ adc_start.host.0)
    × IsReleased 5 w'
read_single_sample_no_device_example =
    read_single_sample_no_device adc_env cfg 9 1 0 2 2 ((0, 7) ∷ []) none adc_start (kernel 5) data'
      refl refl refl (omega arith) refl refl driver_place cell_place (λ s v. refl) (λ o v. refl)
      (λ c a b v. refl) (λ args v. refl) (omega arith) refl (omega arith)

abbrev proximity_env : Env (Proximity × Option ℕ)
proximity_env =
    env FakeProximity.info (FakeProximity.command driver_place)
      (λ args w. returns (tt, (hosted cell_place).put (some args.0) w))

abbrev proximity_start : World (Proximity × Option ℕ)
proximity_start = record {
  kernel_data = some (kernel 393221);
  host = (record new { share_ref = 393221 }, none);
}

wait_for_value_returns_example :
    (w' : World (Proximity × Option ℕ)) × ((set_value_sync driver_place 200
          >> Proximity.wait_for_value_between
              (fake_syscalls proximity_env)
              cfg
              9
              1
              (hosted cell_place)
              1
              50
              150)
        proximity_start
      ≡ returns (some (ok 200), w'))
    × (w'.host.0 ≡ resting 393221 (record { lower = 50; upper = 150 }) none)
    × IsReleased 393221 w'
wait_for_value_returns_example =
    wait_for_value_returns proximity_env cfg 9 1 200 (record { lower = 0; upper = 0 }) none
      proximity_start (kernel 393221) data' refl refl refl (omega arith) refl refl nine driver_place
      cell_place (λ s v. refl) (λ o v. refl) (λ c a b v. refl) (λ args v. refl) refl (omega arith)
      50 150 0 (omega arith) (omega arith) (inr (omega arith))
