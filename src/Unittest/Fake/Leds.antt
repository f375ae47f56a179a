-- ===== src/Unittest/Fake/Leds.antt =====
-- unittest/src/fake/leds/mod.rs. The array `leds` is at a place of the world; its length is
-- `LEDS_COUNT`. Indexing beyond it panics.
pub mod Lights
use libtock_rs.Common.{
  ℕ, ◌%◌, ◌^◌, Bool, true, false, not, Option, none, some, List, length, get_elem?, set, replicate,
  ltb, ◌==◌, if◌then◌else◌, Outcome, returns, panics, Run,
}
use libtock_rs.Platform.ErrorCode.{invalid, no_support}
use libtock_rs.Platform.CommandReturn.{CommandReturn}
use libtock_rs.Platform.AsyncCall.{Place}
use libtock_rs.Unittest.CommandReturn.{success, success_u32, failure}
use libtock_rs.Unittest.KernelData.{DriverInfo}

-- `Leds::new`
abbrev pub new : ℕ → List Bool
new leds_count = replicate leds_count false

abbrev pub info : DriverInfo
info = record { driver_num = 2; upcall_count = 0 }

module _ {W : Type 0} (place : Place W (List Bool)) where
  unfoldable pub get_led : ℕ → W → Option Bool
  get_led led w = get_elem? (place.get w) led

  -- The guard that the three commands share, and `leds[argument0 as usize].set(…)`.
  unfoldable pub switch : (Bool → Bool) → ℕ → Run W CommandReturn
  switch change argument0 w =
      if ltb argument0 (length (place.get w) % 2 ^ 32)
      then elim (get_elem? (place.get w) argument0) [
        | none ↦ panics
        | some led ↦ returns (success, place.put (set (place.get w) argument0 (change led)) w)
      ]
      else returns (failure invalid, w)

  unfoldable pub command : ℕ → ℕ → ℕ → Run W CommandReturn
  unfolding switch
  command command_num argument0 argument1 w =
      if command_num == 0
      then returns (success_u32 (length (place.get w) % 2 ^ 32), w)
      else if command_num == 1
      then switch (λ _. true) argument0 w
      else if command_num == 2
      then switch (λ _. false) argument0 w
      else if command_num == 3
      then switch not argument0 w
      else returns (failure no_support, w)
