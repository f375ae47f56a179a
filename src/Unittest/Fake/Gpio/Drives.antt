-- ===== src/Unittest/Fake/Gpio/Drives.antt =====
-- What a command on one pin does: the fake GPIO of unittest/src/fake/gpio/mod.rs behind `command` of
-- platform/src/syscalls_impl.rs, against a step on the state of one pin.
use libtock_rs.Common.{
  ℕ, ◌<◌, ◌^◌, ◌≡◌, false, Option, none, some, [], length, get_elem?, lookup, ◌==◌, if◌then◌else◌,
  Result, err, returns, arith,
}
use libtock_rs.Platform.ErrorCode.{ErrorCode, invalid, no_device}
use libtock_rs.Platform.AsyncCall.{Place}
use libtock_rs.Unittest.CommandReturn.{failure}
use libtock_rs.Unittest.KernelData.{KernelData, DriverData}
use libtock_rs.Unittest.World.{World, Env}
use libtock_rs.Unittest.Fake.Lists.{get_elem?-lt, get_elem?-ge}
use libtock_rs.Unittest.Fake.Gpio.{Gpio, GpioState, pin_command, store_gpio, command}

-- The pins that an application sees: none beyond the last one, and some that may be missing.
abbrev pub Pins : Type 0
Pins = ℕ → Option (Option GpioState)

abbrev pub update : Pins → ℕ → GpioState → Pins
update f pin g j = if pin == j then some (some g) else f j

-- A step on the state of a pin, as one on all pins, given what is there.
abbrev pub applied :
    {R : Type 0}
    → (GpioState → Result R ErrorCode × GpioState)
    → ℕ
    → Pins
    → Option (Option GpioState)
    → Result R ErrorCode × Pins
applied step pin f none = (err invalid, f)
applied step pin f (some none) = (err no_device, f)
applied step pin f (some (some g)) = ((step g).0, update f pin (step g).1)

abbrev pub apply_at :
    {R : Type 0}
    → (GpioState → Result R ErrorCode × GpioState)
    → ℕ
    → Pins
    → Result R ErrorCode × Pins
apply_at step pin f = applied step pin f (f pin)

abbrev pub stored_or : Option GpioState → GpioState → GpioState
stored_or none g = g
stored_or (some g') g = g'

module _ {H : Type 0} (env : Env H) (place : Place H Gpio) (d : DriverData) where
  abbrev pub view : World H → Pins
  view w pin = get_elem? (place.get w.host).gpios pin

  -- No system call is expected, the GPIO is the driver with the number 4, and its pins can be counted.
  abbrev pub IsReady : World H → Type 0
  IsReady w =
      (k : KernelData) × (w.kernel_data ≡ some k)
      × (k.expected_syscalls ≡ [])
      × (lookup 4 k.drivers ≡ some d)
      × (length (place.get w.host).gpios < 2 ^ 32)

  module _ (c b pin : ℕ) (w : World H) (not_exists : (c == 0) ≡ false)
      (not_count : (c == 10) ≡ false) (small : length (place.get w.host).gpios < 2 ^ 32) where
    pub drives_beyond : view w pin ≡ none → command place c pin b w ≡ returns (failure invalid, w)
    unfolding command
    drives_beyond e =
        let high = get_elem?-ge (place.get w.host).gpios pin e in
        rw (not_exists, not_count) (ground (arith, high, small))

    pub drives_missing :
        view w pin ≡ some none → command place c pin b w ≡ returns (failure no_device, w)
    unfolding command
    drives_missing e =
        let low = get_elem?-lt (place.get w.host).gpios pin none e in
        rw (not_exists, not_count) (ground (arith, low, small))

    pub drives_pin :
        (g : GpioState)
        → view w pin ≡ some (some g)
        → command place c pin b w ≡ store_gpio place pin (pin_command c b g) w
    unfolding command
    drives_pin g e =
        let low = get_elem?-lt (place.get w.host).gpios pin (some g) e in
        rw (not_exists, not_count) (ground (arith, low, small))
