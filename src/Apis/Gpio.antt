-- ===== src/Apis/Gpio.antt =====
-- apis/peripherals/gpio/src/lib.rs, over any raw system calls. A `Pin`, an `OutputPin` and an `InputPin`
-- are the number of the pin; the pull of an `InputPin` is the argument of `make_input`.
use libtock_rs.Common.{ℕ, ◌==◌, if◌then◌else◌, Result, ok, err, map_ok, Run, ◌>>=◌, ◌>>◌, pure}
use libtock_rs.Platform.ErrorCode.{ErrorCode}
use libtock_rs.Platform.RawSyscalls.{RawSyscalls}
use libtock_rs.Platform.CommandReturn.Data.{to_result, success_unit, success_u32, failure_code}
use libtock_rs.Platform.Syscalls.{Config, Fallible, command, subscribe, unsubscribe}
use libtock_rs.Platform.AsyncCall.Call.{Operation}

abbrev pub driver_num : ℕ
driver_num = 4

abbrev pub exists_command : ℕ
exists_command = 0

abbrev pub gpio_enable_output : ℕ
gpio_enable_output = 1

abbrev pub gpio_set : ℕ
gpio_set = 2

abbrev pub gpio_clear : ℕ
gpio_clear = 3

abbrev pub gpio_toggle : ℕ
gpio_toggle = 4

abbrev pub gpio_enable_input : ℕ
gpio_enable_input = 5

abbrev pub gpio_read_input : ℕ
gpio_read_input = 6

abbrev pub gpio_enable_interrupts : ℕ
gpio_enable_interrupts = 7

abbrev pub gpio_disable_interrupts : ℕ
gpio_disable_interrupts = 8

abbrev pub gpio_disable : ℕ
gpio_disable = 9

abbrev pub gpio_count : ℕ
gpio_count = 10

abbrev pub interrupt_upcall : ℕ
interrupt_upcall = 0

pub data GpioState : Type 0 where
  low high : GpioState

pub data PinInterruptEdge : Type 0 where
  either rising falling : PinInterruptEdge

-- `edge as u32`
abbrev pub edge_number : PinInterruptEdge → ℕ
edge_number either = 0
edge_number rising = 1
edge_number falling = 2

-- The implementations of `Pull`.
pub data Pull : Type 0 where
  pull_up pull_down pull_none : Pull

-- `P::MODE`
abbrev pub pull_mode : Pull → ℕ
pull_mode pull_up = 1
pull_mode pull_down = 2
pull_mode pull_none = 0

-- `impl From<u32> for GpioState`
unfoldable pub from : ℕ → GpioState
from original = if original == 0 then low else high

-- The command ID in `Gpio::write`.
abbrev pub write_action : GpioState → ℕ
write_action low = gpio_clear
write_action high = gpio_set

-- `impl Upcall for GpioInterruptListener`, whose closure is `f`.
abbrev pub listener :
    {W : Type 0} → (ℕ → GpioState → Run W (Unit {0})) → ℕ × ℕ × ℕ → Run W (Unit {0})
listener f args = f args.0 (from args.1)

-- `?` on a result without a value, and what is returned where it is `Ok`.
abbrev pub and_value : {A : Type 0} → Result (Unit {0}) ErrorCode → A → Result A ErrorCode
and_value (ok _) a = ok a
and_value (err e) a = err e

module _ {W : Type 0} (raw : RawSyscalls W) where
  -- A command whose success has no value.
  abbrev pub command_unit : ℕ → ℕ → ℕ → Fallible W (Unit {0})
  command_unit command_id argument0 argument1 = do
    r ← command raw driver_num command_id argument0 argument1
    pure (to_result success_unit failure_code r)

  unfoldable pub exists : Fallible W (Unit {0})
  exists = command_unit exists_command 0 0

  unfoldable pub count : Fallible W ℕ
  count = do r ← command raw driver_num gpio_count 0 0; pure (to_result success_u32 failure_code r)

  unfoldable pub enable_output : ℕ → Fallible W (Unit {0})
  enable_output pin = command_unit gpio_enable_output pin 0

  unfoldable pub enable_input : ℕ → ℕ → Fallible W (Unit {0})
  enable_input pin mode = command_unit gpio_enable_input pin mode

  unfoldable pub write : ℕ → GpioState → Fallible W (Unit {0})
  write pin state = command_unit (write_action state) pin 0

  unfoldable pub read : ℕ → Fallible W GpioState
  unfolding from
  read pin = do
    r ← command raw driver_num gpio_read_input pin 0
    pure (map_ok from (to_result success_u32 failure_code r))

  unfoldable pub toggle : ℕ → Fallible W (Unit {0})
  toggle pin = command_unit gpio_toggle pin 0

  unfoldable pub disable : ℕ → Fallible W (Unit {0})
  disable pin = command_unit gpio_disable pin 0

  unfoldable pub enable_interrupts : ℕ → PinInterruptEdge → Fallible W (Unit {0})
  enable_interrupts pin edge = command_unit gpio_enable_interrupts pin (edge_number edge)

  unfoldable pub disable_interrupts : ℕ → Fallible W (Unit {0})
  disable_interrupts pin = command_unit gpio_disable_interrupts pin 0

  -- `Gpio::get_pin`
  unfoldable pub get_pin : ℕ → Fallible W ℕ
  unfolding disable
  get_pin pin = do r ← disable pin; pure (and_value r pin)

  -- `Pin::make_output` and `Pin::make_input`
  unfoldable pub make_output : ℕ → Fallible W ℕ
  unfolding enable_output
  make_output pin = do r ← enable_output pin; pure (and_value r pin)

  unfoldable pub make_input : Pull → ℕ → Fallible W ℕ
  unfolding enable_input
  make_input pull pin = do r ← enable_input pin (pull_mode pull); pure (and_value r pin)

  -- `OutputPin::set` and `OutputPin::clear`; its `toggle` is the one above.
  unfoldable pub set_pin : ℕ → Fallible W (Unit {0})
  unfolding write
  set_pin pin = write pin high

  unfoldable pub clear_pin : ℕ → Fallible W (Unit {0})
  unfolding write
  clear_pin pin = write pin low

  -- `Drop` of both.
  unfoldable pub drop_pin : ℕ → Run W (Unit {0})
  unfolding disable
  drop_pin pin = do r ← disable pin; pure tt

  -- The listener is its function and its address.
  unfoldable pub register_listener : Config W → ℕ → ℕ → Fallible W (Unit {0})
  register_listener cfg fcn payload = subscribe raw cfg driver_num interrupt_upcall fcn payload

  unfoldable pub unregister_listener : Run W (Unit {0})
  unregister_listener = unsubscribe raw driver_num interrupt_upcall

  -- `EdgeOp::disable_interrupts`
  abbrev pub ignore_interrupts : ℕ → Run W (Unit {0})
  ignore_interrupts pin = do r ← command raw driver_num gpio_disable_interrupts pin 0; pure tt

  -- `EdgeOp`, with its fields `pin` and `edge`.
  abbrev pub edge_op : ℕ → ℕ → Operation W (ℕ × GpioState)
  edge_op pin edge = record {
    start = command_unit gpio_enable_interrupts pin edge;
    cancel = ignore_interrupts pin;
    complete = λ args. (do ignore_interrupts pin; pure (ok (args.0, from args.1)));
  }
