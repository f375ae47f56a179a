-- ===== src/Unittest/Fake/Buzzer.antt =====
-- unittest/src/fake/buzzer/mod.rs. The buzzer's cells are at a place of the state outside the kernel. An
-- `i32` is the number of its 32 bits, a `Duration` that of its milliseconds.
pub mod Sync
use libtock_rs.Common.{
  ℕ, ◌+◌, ◌-◌, ◌^◌, ◌%◌, Bool, true, false, Option, none, some, ◌==◌, ltb, if◌then◌else◌, returns,
}
use libtock_rs.Platform.ErrorCode.{busy, no_support}
use libtock_rs.Platform.CommandReturn.{CommandReturn}
use libtock_rs.Platform.AsyncCall.{Place}
use libtock_rs.Unittest.CommandReturn.{success, failure}
use libtock_rs.Unittest.KernelData.{DriverInfo}
use libtock_rs.Unittest.World.{World, M, ◌>>=◌, ◌>>◌, pure}
use libtock_rs.Unittest.ShareData.{schedule_upcall, expected}

-- `upcall_on_command` is an array of two cells: the frequency and the duration.
pub record Buzzer : Type 0 where
  pub is_busy : Bool
  pub freq_on_command : Option ℕ
  pub duration_on_command : Option ℕ
  pub share_ref : ℕ

abbrev pub new : Buzzer
new = record { is_busy = false; freq_on_command = none; duration_on_command = none; share_ref = 0 }

abbrev pub info : DriverInfo
info = record { driver_num = 589824; upcall_count = 1 }

-- `duration as u64` of an `i32`.
abbrev pub sign_extend : ℕ → ℕ
sign_extend duration = if ltb duration (2 ^ 31) then duration else duration + (2 ^ 64 - 2 ^ 32)

module _ {H : Type 0} (place : Place H Buzzer) where
  abbrev pub store : Buzzer → World H → World H
  store s w = record w { host = place.put s w.host }

  abbrev pub register : ℕ → M H (Unit {0})
  register share_ref w = returns (tt, store (record (place.get w.host) { share_ref = share_ref }) w)

  abbrev pub set_idle : M H (Unit {0})
  set_idle w = returns (tt, store (record (place.get w.host) { is_busy = false }) w)

  -- The body of `set_tone` where the buzzer is busy.
  abbrev pub deliver : ℕ → ℕ → ℕ → M H (Unit {0})
  deliver share_ref freq duration = do
    schedule_upcall share_ref 0 (freq, duration % 2 ^ 32, 0) >>= expected
    set_idle

  unfoldable pub set_tone : ℕ → ℕ → M H (Unit {0})
  set_tone freq duration w =
      if (place.get w.host).is_busy
      then deliver (place.get w.host).share_ref freq duration w
      else returns (tt, w)

  unfoldable pub set_tone_sync : ℕ → ℕ → M H (Unit {0})
  set_tone_sync freq duration w =
      let s = place.get w.host in
      returns (
        tt,
        store (record s { freq_on_command = some freq; duration_on_command = some duration }) w,
      )

  -- The arm of the tone command, past its guard. A duration that is there stays where there is no
  -- frequency.
  abbrev pub begin : Buzzer → M H (Unit {0})
  begin s w = elim s.freq_on_command [
    | none ↦ returns (tt, store (record s { is_busy = true }) w)
    | some freq ↦ elim s.duration_on_command [
      | none ↦ returns (tt, store (record s { is_busy = true; freq_on_command = none }) w)
      | some duration ↦ set_tone freq (sign_extend duration) (
          store (record s { is_busy = true; freq_on_command = none; duration_on_command = none }) w)
    ]
  ]

  unfoldable pub tone : M H CommandReturn
  unfolding set_tone
  tone w =
      if (place.get w.host).is_busy
      then returns (failure busy, w)
      else (begin (place.get w.host) >> pure success) w

  unfoldable pub command : ℕ → ℕ → ℕ → M H CommandReturn
  unfolding tone
  command command_num argument0 argument1 w =
      if command_num == 0
      then returns (success, w)
      else if command_num == 1
      then tone w
      else returns (failure no_support, w)
