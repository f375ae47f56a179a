-- ===== src/Unittest/Fake/Adc.antt =====
-- unittest/src/fake/adc/mod.rs. The ADC's cells are at a place of the state outside the kernel. A value
-- is the number of its bits.
pub mod Sample
pub mod Sync
use libtock_rs.Common.{
  ℕ, Bool, true, false, Option, none, some, List, [], leb, lookup, insert, erase, ◌==◌,
  if◌then◌else◌, returns,
}
use libtock_rs.Platform.ErrorCode
use libtock_rs.Platform.ErrorCode.{no_support, no_device}
use libtock_rs.Platform.CommandReturn.{CommandReturn}
use libtock_rs.Platform.AsyncCall.{Place}
use libtock_rs.Unittest.CommandReturn.{success, success_u32, failure}
use libtock_rs.Unittest.KernelData.{DriverInfo}
use libtock_rs.Unittest.World.{World, M, ◌>>=◌, ◌>>◌, pure}
use libtock_rs.Unittest.ShareData.{schedule_upcall}
use libtock_rs.Unittest.ShareData.{expected}

pub record Adc : Type 0 where
  pub busy : Bool
  pub upcall_on_command : List (ℕ × ℕ)
  pub channels : ℕ
  pub last_channel : Option ℕ
  pub share_ref : ℕ

abbrev pub new_with_channels : ℕ → Adc
new_with_channels channels = record {
  busy = false;
  upcall_on_command = [];
  channels = channels;
  last_channel = none;
  share_ref = 0;
}

abbrev pub new : Adc
new = new_with_channels 1

abbrev pub info : DriverInfo
info = record { driver_num = 5; upcall_count = 1 }

abbrev pub unwrap_or_zero : Option ℕ → ℕ
unwrap_or_zero none = 0
unwrap_or_zero (some channel) = channel

module _ {H : Type 0} (place : Place H Adc) where
  abbrev pub store : Adc → World H → World H
  store s w = record w { host = place.put s w.host }

  abbrev pub modify : (Adc → Adc) → M H (Unit {0})
  modify f w = returns (tt, store (f (place.get w.host)) w)

  abbrev pub register : ℕ → M H (Unit {0})
  register share_ref = modify (λ s. record s { share_ref = share_ref })

  -- The body of `set_value` where the ADC is busy: the mode, the channel and the value.
  abbrev pub deliver : Adc → ℕ → M H (Unit {0})
  deliver s value = do
    r ← schedule_upcall s.share_ref 0 (0, unwrap_or_zero s.last_channel, value)
    expected r
    modify (λ s. record s { busy = false })

  unfoldable pub set_value : ℕ → M H (Unit {0})
  set_value value w =
      if (place.get w.host).busy then deliver (place.get w.host) value w else returns (tt, w)

  unfoldable pub set_value_sync_on : ℕ → ℕ → M H (Unit {0})
  set_value_sync_on channel value =
      modify (λ s. record s { upcall_on_command = insert channel value s.upcall_on_command })

  unfoldable pub set_value_sync : ℕ → M H (Unit {0})
  unfolding set_value_sync_on
  set_value_sync value = set_value_sync_on 0 value

  -- `self.upcall_on_command.borrow_mut().remove(&channel)`
  abbrev pub take_upcall : ℕ → M H (Option ℕ)
  take_upcall channel w =
      let s = place.get w.host in
      returns (
        lookup channel s.upcall_on_command,
        store (record s { upcall_on_command = erase channel s.upcall_on_command }) w,
      )

  abbrev pub set_taken : Option ℕ → M H (Unit {0})
  set_taken none = pure tt
  set_taken (some val) = set_value val

  -- The arm of the sample command, past its guards.
  abbrev pub begin : ℕ → M H CommandReturn
  begin channel = do
    modify (λ s. record s { last_channel = some channel })
    modify (λ s. record s { busy = true })
    val ← take_upcall channel
    set_taken val
    pure success

  unfoldable pub single_sample : ℕ → M H CommandReturn
  unfolding set_value
  single_sample channel w =
      if leb (place.get w.host).channels channel
      then returns (failure no_device, w)
      else if (place.get w.host).busy
      then returns (failure ErrorCode.busy, w)
      else begin channel w

  unfoldable pub command : ℕ → ℕ → ℕ → M H CommandReturn
  unfolding single_sample
  command command_id argument0 argument1 w =
      if command_id == 0
      then returns (success_u32 (place.get w.host).channels, w)
      else if command_id == 1
      then single_sample argument0 w
      else returns (failure no_support, w)
