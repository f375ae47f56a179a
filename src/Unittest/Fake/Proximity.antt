-- ===== src/Unittest/Fake/Proximity.antt =====
-- unittest/src/fake/proximity/mod.rs. The sensor's cells are at a place of the state outside the kernel.
pub mod Detects
pub mod Sync
use libtock_rs.Common.{
  ℕ, ◌%◌, ◌&&◌, Bool, true, false, Option, none, some, leb, ◌==◌, if◌then◌else◌, returns,
}
use libtock_rs.Platform.ErrorCode.{busy, no_support}
use libtock_rs.Platform.CommandReturn.{CommandReturn}
use libtock_rs.Platform.AsyncCall.{Place}
use libtock_rs.Unittest.CommandReturn.{success, failure}
use libtock_rs.Unittest.KernelData.{DriverInfo}
use libtock_rs.Unittest.World.{World, M, ◌>>=◌, ◌>>◌, pure}
use libtock_rs.Unittest.ShareData.{schedule_upcall}
use libtock_rs.Unittest.ShareData.{expected}

pub data ProximityCommand : Type 0 where
  read_proximity read_proximity_on_interrupt no_command : ProximityCommand

pub record Thresholds : Type 0 where
  pub lower : ℕ
  pub upper : ℕ

pub record Proximity : Type 0 where
  pub current_command : ProximityCommand
  pub thresholds : Thresholds
  pub upcall_on_command : Option ℕ
  pub share_ref : ℕ

abbrev pub new : Proximity
new = record {
  current_command = no_command;
  thresholds = record { lower = 0; upper = 0 };
  upcall_on_command = none;
  share_ref = 0;
}

abbrev pub info : DriverInfo
info = record { driver_num = 393221; upcall_count = 1 }

-- Whether `set_value` goes past the match on the current command.
unfoldable pub reports : Proximity → ℕ → Bool
reports s value = elim s.current_command [
  | no_command ↦ false
  | read_proximity_on_interrupt ↦
      if leb s.thresholds.lower value && leb value s.thresholds.upper then false else true
  | read_proximity ↦ true
]

-- `self.current_command.get() != ProximityCommand::NoCommand`
abbrev pub has_command : ProximityCommand → Bool
has_command no_command = false
has_command _ = true

-- What the read commands store.
abbrev pub start_reading : Proximity → Proximity
start_reading s = record s { current_command = read_proximity }

abbrev pub start_interrupts : ℕ → ℕ → Proximity → Proximity
start_interrupts argument0 argument1 s = record s {
  current_command = read_proximity_on_interrupt;
  thresholds = record { lower = argument0 % 256; upper = argument1 % 256 };
}

module _ {H : Type 0} (place : Place H Proximity) where
  abbrev pub store : Proximity → World H → World H
  store s w = record w { host = place.put s w.host }

  abbrev pub modify : (Proximity → Proximity) → M H (Unit {0})
  modify f w = returns (tt, store (f (place.get w.host)) w)

  abbrev pub register : ℕ → M H (Unit {0})
  register share_ref = modify (λ s. record s { share_ref = share_ref })

  abbrev pub deliver : ℕ → ℕ → M H (Unit {0})
  deliver share_ref value = do
    r ← schedule_upcall share_ref 0 (value, 0, 0)
    expected r
    modify (λ s. record s { current_command = no_command })
    modify (λ s. record s { upcall_on_command = none })

  unfoldable pub set_value : ℕ → M H (Unit {0})
  unfolding reports
  set_value value w =
      if reports (place.get w.host) value
      then deliver (place.get w.host).share_ref value w
      else returns (tt, w)

  unfoldable pub set_value_sync : ℕ → M H (Unit {0})
  set_value_sync value = modify (λ s. record s { upcall_on_command = some value })

  -- `if let Some(val) = self.upcall_on_command.get() { self.set_value(val); }`
  abbrev pub set_pending : M H (Unit {0})
  set_pending w = elim (place.get w.host).upcall_on_command [
    | none ↦ returns (tt, w)
    | some val ↦ set_value val w
  ]

  -- The arms of both read commands, past their guard: what they store, then the pending value.
  abbrev pub begin : (Proximity → Proximity) → M H CommandReturn
  begin f = do modify f; set_pending; pure success

  unfoldable pub command : ℕ → ℕ → ℕ → M H CommandReturn
  unfolding set_value
  command command_id argument0 argument1 w =
      if command_id == 0
      then returns (success, w)
      else if command_id == 1
      then if has_command (place.get w.host).current_command
        then returns (failure busy, w)
        else begin start_reading w
      else if command_id == 2
      then if has_command (place.get w.host).current_command
        then returns (failure busy, w)
        else begin (start_interrupts argument0 argument1) w
      else returns (failure no_support, w)
