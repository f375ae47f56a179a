-- ===== src/Unittest/Fake/Buttons.antt =====
-- unittest/src/fake/buttons/mod.rs. The array `buttons` is at a place of the state outside the kernel,
-- with the share reference; its length is `NUM_BUTTONS`. Indexing beyond it panics.
pub mod Presses
use libtock_rs.Common.{
  ℕ, ◌%◌, ◌^◌, Bool, true, false, ◌&&◌, Option, none, some, List, length, get_elem?, set, replicate,
  ltb, ◌==◌, if◌then◌else◌, Result, ok, err, returns, panics,
}
use libtock_rs.Platform.ErrorCode.{ErrorCode, invalid, no_support}
use libtock_rs.Platform.CommandReturn.{CommandReturn}
use libtock_rs.Platform.AsyncCall.{Place}
use libtock_rs.Unittest.CommandReturn.{success, success_u32, failure}
use libtock_rs.Unittest.KernelData.{DriverInfo}
use libtock_rs.Unittest.World.{World, M, ◌>>=◌, ◌>>◌, pure}
use libtock_rs.Unittest.ShareData.{schedule_upcall}
use libtock_rs.Unittest.ShareData.{expected}
use libtock_rs.Unittest.Fake.Gpio.{bit, bool_ne}

pub record ButtonState : Type 0 where
  pub pressed : Bool
  pub interrupt_enabled : Bool

pub record Buttons : Type 0 where
  pub buttons : List ButtonState
  pub share_ref : ℕ

-- `Buttons::new`
abbrev pub new : ℕ → Buttons
new num_buttons = record {
  buttons = replicate num_buttons (record { pressed = false; interrupt_enabled = false });
  share_ref = 0;
}

abbrev pub info : DriverInfo
info = record { driver_num = 3; upcall_count = 1 }

module _ {H : Type 0} (place : Place H Buttons) where
  -- The array with a button's cell set.
  abbrev pub set_button : ℕ → ButtonState → World H → World H
  set_button button b w =
      let s = place.get w.host in
      record w { host = place.put (record s { buttons = set s.buttons button b }) w.host }

  abbrev pub register : ℕ → M H (Unit {0})
  register share_ref w = returns (
    tt,
    record w { host = place.put (record (place.get w.host) { share_ref = share_ref }) w.host },
  )

  unfoldable pub get_button_state : ℕ → World H → Option ButtonState
  get_button_state button w = get_elem? (place.get w.host).buttons button

  -- The upcall of `set_pressed`, given the state from before.
  abbrev pub notify : ℕ → Bool → ButtonState → M H (Unit {0})
  notify button pressed original w =
      if original.interrupt_enabled && bool_ne original.pressed pressed
      then (schedule_upcall (place.get w.host).share_ref 0 (button, bit pressed, 0) >>= expected) w
      else returns (tt, w)

  unfoldable pub set_pressed : ℕ → Bool → M H (Result (Unit {0}) ErrorCode)
  set_pressed button pressed w = elim (get_elem? (place.get w.host).buttons button) [
    | none ↦ returns (err invalid, w)
    | some original ↦
        (notify button pressed original >> pure (ok tt))
          (set_button button (record original { pressed = pressed }) w)
  ]

  -- The guard that three commands share, and `self.buttons[argument0 as usize]`.
  abbrev pub with_button : ℕ → (ButtonState → M H CommandReturn) → M H CommandReturn
  with_button argument0 f w =
      if ltb argument0 (length (place.get w.host).buttons % 2 ^ 32)
      then elim (get_elem? (place.get w.host).buttons argument0) [
        | none ↦ panics
        | some button ↦ f button w
      ]
      else returns (failure invalid, w)

  abbrev pub set_enabled : ℕ → Bool → ButtonState → M H CommandReturn
  set_enabled argument0 enabled button w =
      returns (success, set_button argument0 (record button { interrupt_enabled = enabled }) w)

  unfoldable pub command : ℕ → ℕ → ℕ → M H CommandReturn
  command command_number argument0 argument1 w =
      if command_number == 0
      then returns (success_u32 (length (place.get w.host).buttons % 2 ^ 32), w)
      else if command_number == 1
      then with_button argument0 (set_enabled argument0 true) w
      else if command_number == 2
      then with_button argument0 (set_enabled argument0 false) w
      else if command_number == 3
      then with_button argument0 (λ button w. returns (success_u32 (bit button.pressed), w)) w
      else returns (failure no_support, w)
