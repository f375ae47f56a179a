-- ===== src/Unittest/Fake/Gpio.antt =====
-- unittest/src/fake/gpio/mod.rs. The array `gpios` is at a place of the state outside the kernel, with the
-- share reference; its length is `NUM_GPIOS`. `none` is a pin that is missing.
pub mod Drives
pub mod Steps
pub mod Session
pub mod Refines
pub mod Edges
use libtock_rs.Common.{
  ℕ, ◌%◌, ◌^◌, Bool, true, false, not, Option, none, some, List, length, get_elem?, set, replicate,
  ltb, ◌==◌, if◌then◌else◌, Result, ok, err, returns, panics,
}
use libtock_rs.Platform.ErrorCode.{ErrorCode, invalid, no_device, no_support}
use libtock_rs.Platform.CommandReturn.{CommandReturn}
use libtock_rs.Platform.AsyncCall.{Place}
use libtock_rs.Unittest.CommandReturn.{success, success_u32, failure}
use libtock_rs.Unittest.KernelData.{DriverInfo}
use libtock_rs.Unittest.World.{World, M, ◌>>=◌, ◌>>◌, pure}
use libtock_rs.Unittest.ShareData.{schedule_upcall}
use libtock_rs.Unittest.ShareData.{expected}

pub data PullMode : Type 0 where
  pull_none pull_up pull_down : PullMode

pub data GpioMode : Type 0 where
  output disabled : GpioMode
  input : PullMode → GpioMode

pub data InterruptEdge : Type 0 where
  either rising falling : InterruptEdge

-- `impl TryFrom<u32> for PullMode`
unfoldable pub pull_mode_try_from : ℕ → Result PullMode ErrorCode
pull_mode_try_from value =
    if value == 0
    then ok pull_none
    else if value == 1
    then ok pull_up
    else if value == 2
    then ok pull_down
    else err invalid

-- `impl TryFrom<u32> for InterruptEdge`
unfoldable pub edge_try_from : ℕ → Result InterruptEdge ErrorCode
edge_try_from value =
    if value == 0
    then ok either
    else if value == 1
    then ok rising
    else if value == 2
    then ok falling
    else err invalid

pub record GpioState : Type 0 where
  pub value : Bool
  pub mode : GpioMode
  pub interrupt_enabled : Option InterruptEdge

pub record Gpio : Type 0 where
  pub gpios : List (Option GpioState)
  pub share_ref : ℕ

-- `Gpio::new`
abbrev pub new : ℕ → Gpio
new num_gpios = record {
  gpios =
      replicate num_gpios
        (some (record { value = false; mode = input pull_none; interrupt_enabled = none }));
  share_ref = 0;
}

abbrev pub info : DriverInfo
info = record { driver_num = 4; upcall_count = 1 }

-- `value as u32` of a `bool`.
abbrev pub bit : Bool → ℕ
bit false = 0
bit true = 1

-- `if let GpioMode::Output = gpio.mode`, and the state that is stored then.
abbrev pub if_output : GpioMode → GpioState → Option GpioState
if_output output g = some g
if_output _ g = none

-- What GPIO_READ_INPUT returns.
abbrev pub input_value : GpioMode → Bool → ℕ
input_value (input _) value = bit value
input_value _ value = 0

abbrev pub enable_input : GpioState → Result PullMode ErrorCode → CommandReturn × Option GpioState
enable_input g (ok mode) = (success, some (record g { mode = input mode }))
enable_input g (err error) = (failure error, none)

abbrev pub enable_edge :
    GpioState → Result InterruptEdge ErrorCode → CommandReturn × Option GpioState
enable_edge g (ok edge) = (success, some (record g { interrupt_enabled = some edge }))
enable_edge g (err error) = (failure error, none)

-- The match on the command for a pin that is there: what is returned, and the state that is stored, if
-- one is.
unfoldable pub pin_command : ℕ → ℕ → GpioState → CommandReturn × Option GpioState
unfolding pull_mode_try_from edge_try_from
pin_command command_number argument1 g =
    if command_number == 1
    then (success, some (record g { mode = output }))
    else if command_number == 2
    then (success, if_output g.mode (record g { value = true }))
    else if command_number == 3
    then (success, if_output g.mode (record g { value = false }))
    else if command_number == 4
    then (success, if_output g.mode (record g { value = not g.value }))
    else if command_number == 5
    then enable_input g (pull_mode_try_from argument1)
    else if command_number == 6
    then (success_u32 (input_value g.mode g.value), none)
    else if command_number == 7
    then enable_edge g (edge_try_from argument1)
    else if command_number == 8
    then (success, some (record g { interrupt_enabled = none }))
    else if command_number == 9
    then (success, some (record g { mode = disabled }))
    else (failure no_support, none)

-- Whether `set_value` schedules an upcall for a pin with this edge whose value has become `value`.
unfoldable pub fires : Option InterruptEdge → Bool → Bool
fires none value = false
fires (some either) value = true
fires (some rising) value = value
fires (some falling) value = not value

abbrev pub bool_ne : Bool → Bool → Bool
bool_ne true b = not b
bool_ne false b = b

-- `and_then(|value| value)`
abbrev pub joined : Option (Option GpioState) → Option GpioState
joined none = none
joined (some o) = o

module _ {H : Type 0} (place : Place H Gpio) where
  -- The array with a pin's cell set.
  abbrev pub set_gpio : ℕ → Option GpioState → World H → World H
  set_gpio pin g w =
      let s = place.get w.host in
      record w { host = place.put (record s { gpios = set s.gpios pin g }) w.host }

  abbrev pub register : ℕ → M H (Unit {0})
  register share_ref w = returns (
    tt,
    record w { host = place.put (record (place.get w.host) { share_ref = share_ref }) w.host },
  )

  -- `get_gpio_state`
  unfoldable pub get_gpio_state : ℕ → World H → Option GpioState
  get_gpio_state pin w = joined (get_elem? (place.get w.host).gpios pin)

  unfoldable pub set_missing_gpio : ℕ → M H (Unit {0})
  set_missing_gpio gpio w = elim (get_elem? (place.get w.host).gpios gpio) [
    | none ↦ returns (tt, w)
    | some _ ↦ returns (tt, set_gpio gpio none w)
  ]

  -- The two branches of `set_value` on the new value, for a pin whose value changes.
  abbrev pub notify : ℕ → Bool → Option InterruptEdge → M H (Unit {0})
  notify pin value edge w =
      if fires edge value
      then (schedule_upcall (place.get w.host).share_ref 0 (pin, bit value, 0) >>= expected) w
      else returns (tt, w)

  unfoldable pub set_value : ℕ → Bool → M H (Result (Unit {0}) ErrorCode)
  unfolding fires
  set_value pin value w = elim (get_elem? (place.get w.host).gpios pin) [
    | none ↦ returns (err invalid, w)
    | some none ↦ returns (err no_device, w)
    | some (some g) ↦
        ((if bool_ne g.value value then notify pin value g.interrupt_enabled else pure tt)
            >> pure (ok tt))
          (set_gpio pin (some (record g { value = value })) w)
  ]

  -- Where a state is stored, the pin's cell is set.
  abbrev pub store_gpio : ℕ → CommandReturn × Option GpioState → M H CommandReturn
  store_gpio pin (r, none) w = returns (r, w)
  store_gpio pin (r, some g) w = returns (r, set_gpio pin (some g) w)

  unfoldable pub command : ℕ → ℕ → ℕ → M H CommandReturn
  unfolding pin_command
  command command_number argument0 argument1 w =
      if command_number == 0
      then returns (success, w)
      else if command_number == 10
      then returns (success_u32 (length (place.get w.host).gpios % 2 ^ 32), w)
      else if ltb argument0 (length (place.get w.host).gpios % 2 ^ 32)
      then elim (get_elem? (place.get w.host).gpios argument0) [
        | none ↦ panics
        | some none ↦ returns (failure no_device, w)
        | some (some g) ↦ store_gpio argument0 (pin_command command_number argument1 g) w
      ]
      else returns (failure invalid, w)
