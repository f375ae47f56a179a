-- ===== src/Unittest/Fake/Sensor.antt =====
-- unittest/src/fake/temperature/mod.rs; ambient_light/mod.rs and sound_pressure/mod.rs beside it have the
-- same code for values of other types, as the children say. A value is the number of its bits, and
-- `value as u32` keeps it.
--
-- The sensor's cells are at a place of the state outside the kernel.
pub mod Reads
pub mod Sync
use libtock_rs.Common.{
  ℕ, Bool, true, false, Option, none, some, ◌==◌, if◌then◌else◌, ok, err, returns, panic,
}
use libtock_rs.Platform.ErrorCode.{busy, no_support}
use libtock_rs.Platform.CommandReturn.{CommandReturn}
use libtock_rs.Platform.AsyncCall.{Place}
use libtock_rs.Unittest.CommandReturn.{success, failure}
use libtock_rs.Unittest.KernelData.{DriverInfo}
use libtock_rs.Unittest.World.{World, M, ◌>>=◌, ◌>>◌, pure}
use libtock_rs.Unittest.ShareData.{schedule_upcall, expected}

pub record Sensor : Type 0 where
  pub busy : Bool
  pub upcall_on_command : Option ℕ
  pub share_ref : ℕ

-- `Temperature::new`
abbrev pub new : Sensor
new = record { busy = false; upcall_on_command = none; share_ref = 0 }

abbrev pub info : ℕ → DriverInfo
info driver_num = record { driver_num = driver_num; upcall_count = 1 }

module _ {H : Type 0} (place : Place H Sensor) where
  abbrev pub store : Sensor → World H → World H
  store s w = record w { host = place.put s w.host }

  abbrev pub register : ℕ → M H (Unit {0})
  register share_ref w = returns (tt, store (record (place.get w.host) { share_ref = share_ref }) w)

  abbrev pub is_busy : World H → Bool
  is_busy w = (place.get w.host).busy

  -- `self.busy.set(b)`
  abbrev pub set_busy : Bool → M H (Unit {0})
  set_busy b w = returns (tt, store (record (place.get w.host) { busy = b }) w)

  -- The body of `set_value` where the sensor is busy.
  abbrev pub deliver : ℕ → ℕ → M H (Unit {0})
  deliver share_ref value = do
    r ← schedule_upcall share_ref 0 (value, 0, 0)
    expected r
    set_busy false

  unfoldable pub set_value : ℕ → M H (Unit {0})
  set_value value w =
      if (place.get w.host).busy
      then deliver (place.get w.host).share_ref value w
      else returns (tt, w)

  unfoldable pub set_value_sync : ℕ → M H (Unit {0})
  set_value_sync value w =
      returns (tt, store (record (place.get w.host) { upcall_on_command = some value }) w)

  -- `self.upcall_on_command.take()`
  abbrev pub take_upcall : M H (Option ℕ)
  take_upcall w = returns (
    (place.get w.host).upcall_on_command,
    store (record (place.get w.host) { upcall_on_command = none }) w,
  )

  abbrev pub set_taken : Option ℕ → M H (Unit {0})
  set_taken none = pure tt
  set_taken (some val) = set_value val

  -- The arm of the read command, past its guard.
  abbrev pub begin : M H CommandReturn
  begin = do set_busy true; val ← take_upcall; set_taken val; pure success

  unfoldable pub read : M H CommandReturn
  unfolding set_value
  read w = if (place.get w.host).busy then returns (failure busy, w) else begin w

  unfoldable pub command : ℕ → ℕ → ℕ → M H CommandReturn
  unfolding read
  command command_id argument0 argument1 w =
      if command_id == 0
      then returns (success, w)
      else if command_id == 1
      then read w
      else returns (failure no_support, w)
