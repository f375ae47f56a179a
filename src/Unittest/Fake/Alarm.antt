-- ===== src/Unittest/Fake/Alarm.antt =====
-- unittest/src/fake/alarm/mod.rs. The alarm's cells are at a place of the state outside the kernel; the
-- fields that never change are kept with them.
pub mod Fires
pub mod Sleep
pub mod Blocks
use libtock_rs.Common.{
  ℕ, ◌+◌, ◌%◌, ◌^◌, Bool, true, false, Option, none, some, ◌==◌, if◌then◌else◌, ok, err, returns,
  panic,
}
use libtock_rs.Platform.ErrorCode.{already, no_support}
use libtock_rs.Platform.CommandReturn.{CommandReturn}
use libtock_rs.Platform.AsyncCall.{Place}
use libtock_rs.Unittest.CommandReturn.{success, success_u32, failure}
use libtock_rs.Unittest.KernelData.{DriverInfo}
use libtock_rs.Unittest.World.{World, M, ◌>>=◌, ◌>>◌, pure}
use libtock_rs.Unittest.ShareData.{schedule_upcall, expected}

pub record Alarm : Type 0 where
  pub frequency_hz : ℕ
  pub now : ℕ
  pub expiration : Option ℕ
  pub deferred : Bool
  pub share_ref : ℕ

-- `Alarm::build`
abbrev pub build : ℕ → Bool → Alarm
build frequency_hz deferred = record {
  frequency_hz = frequency_hz;
  now = 0;
  expiration = none;
  deferred = deferred;
  share_ref = 0;
}

abbrev pub info : DriverInfo
info = record { driver_num = 0; upcall_count = 1 }

module _ {H : Type 0} (place : Place H Alarm) where
  abbrev pub store : Alarm → World H → World H
  store a w = record w { host = place.put a w.host }

  abbrev pub register : ℕ → M H (Unit {0})
  register share_ref w = returns (tt, store (record (place.get w.host) { share_ref = share_ref }) w)

  unfoldable pub is_armed : World H → Bool
  is_armed w = elim (place.get w.host).expiration [ none ↦ false | some _ ↦ true ]

  -- What `fire` does to an alarm in this state.
  abbrev pub fire_from : Alarm → M H (Unit {0})
  fire_from a w = elim a.expiration [
    | none ↦ returns (tt, w)
    | some deadline ↦
        (schedule_upcall a.share_ref 0 (deadline, 0, 0) >>= expected)
          (store (record a { expiration = none }) w)
  ]

  unfoldable pub fire : M H (Unit {0})
  fire w = fire_from (place.get w.host) w

  unfoldable pub stop : M H CommandReturn
  stop w = elim (place.get w.host).expiration [
    | none ↦ returns (failure already, w)
    | some _ ↦ returns (success, store (record (place.get w.host) { expiration = none }) w)
  ]

  abbrev pub fire_now : Bool → M H (Unit {0})
  fire_now true = pure tt
  fire_now false = fire

  unfoldable pub set_relative : ℕ → M H CommandReturn
  unfolding fire
  set_relative relative w =
      let wake = ((place.get w.host).now + relative) % 2 ^ 32 in
      (fire_now (place.get w.host).deferred >>= λ _. pure (success_u32 wake))
        (store (record (place.get w.host) { now = wake; expiration = some wake }) w)

  unfoldable pub command : ℕ → ℕ → ℕ → M H CommandReturn
  unfolding stop set_relative
  command command_number argument0 argument1 w =
      if command_number == 1
      then returns (success_u32 (place.get w.host).frequency_hz, w)
      else if command_number == 3
      then stop w
      else if command_number == 5
      then set_relative argument0 w
      else returns (failure no_support, w)
