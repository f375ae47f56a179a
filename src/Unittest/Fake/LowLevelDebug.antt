-- ===== src/Unittest/Fake/LowLevelDebug.antt =====
-- unittest/src/fake/low_level_debug/mod.rs. The driver's cell is at a place of the state outside the
-- kernel; the line that it prints to the standard output is left out.
pub mod Prints
use libtock_rs.Common.{ℕ, ◌==◌, if◌then◌else◌, List, [], ◌∷◌, ◌++◌, returns}
use libtock_rs.Platform.ErrorCode.{no_support}
use libtock_rs.Platform.CommandReturn.{CommandReturn}
use libtock_rs.Platform.AsyncCall.{Place}
use libtock_rs.Unittest.CommandReturn.{success, failure}
use libtock_rs.Unittest.KernelData.{DriverInfo}
use libtock_rs.Unittest.World.{World, M}

pub data Message : Type 0 where
  alert_code : ℕ → Message
  print_1 : ℕ → Message
  print_2 : ℕ → ℕ → Message

abbrev pub LowLevelDebug : Type 0
LowLevelDebug = List Message

abbrev pub new : LowLevelDebug
new = []

abbrev pub info : DriverInfo
info = record { driver_num = 8; upcall_count = 0 }

module _ {H : Type 0} (place : Place H LowLevelDebug) where
  unfoldable pub take_messages : M H (List Message)
  take_messages w = returns (place.get w.host, record w { host = place.put [] w.host })

  -- `handle_message`, and the success behind the match.
  abbrev pub handle_message : Message → M H CommandReturn
  handle_message message w =
      returns (success, record w { host = place.put (place.get w.host ++ message ∷ []) w.host })

  unfoldable pub command : ℕ → ℕ → ℕ → M H CommandReturn
  command command_num argument0 argument1 w =
      if command_num == 0
      then returns (success, w)
      else if command_num == 1
      then handle_message (alert_code argument0) w
      else if command_num == 2
      then handle_message (print_1 argument0) w
      else if command_num == 3
      then handle_message (print_2 argument0 argument1) w
      else returns (failure no_support, w)
