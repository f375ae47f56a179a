-- ===== src/Tests/Pins.antt =====
-- Tests of apis/peripherals/gpio/src/lib.rs with three fake pins, one of which is missing.
use libtock_rs.Common.{
  ℕ, ◌≡◌, refl, ◌==◌, if◌then◌else◌, Bool, true, false, none, some, List, [], ◌∷◌, ok, err, returns,
  arith,
}
use libtock_rs.Platform.ErrorCode.{invalid, no_device}
use libtock_rs.Platform.AsyncCall.{Place}
use libtock_rs.Apis.Gpio as Api
use libtock_rs.Unittest.KernelData.{KernelData, DriverData, Upcall, UpcallQueueEntry}
use libtock_rs.Unittest.World.{World, Env, pure}
use libtock_rs.Unittest.Fake.{fake_syscalls}
use libtock_rs.Unittest.Fake.Gpio.{
  Gpio, input, pull_none, falling, info, command, set_value, get_gpio_state,
}
use libtock_rs.Unittest.Fake.Gpio.Drives.{view, IsReady}
use libtock_rs.Unittest.Fake.Gpio.Session.{
  Op, enable_output, read, write, disable, exec_all, replay,
}
use libtock_rs.Unittest.Fake.Gpio.Refines.{gpio_refines}
use libtock_rs.Unittest.Fake.Gpio.Edges.{set_value_tells}
use libtock_rs.Tests.Hosts.{env, kernel, data'}

abbrev pins : Place Gpio Gpio
pins = record { get = λ s. s; put = λ s _. s; get-put = λ s v. refl }

abbrev gpio_env : Env Gpio
gpio_env = env info (command pins) (λ args. pure tt)

-- An input that is high, an input that waits for a falling edge, and a pin that is missing.
abbrev gpio : Gpio
gpio = record {
  gpios =
      some (record { value = true; mode = input pull_none; interrupt_enabled = none })
      ∷ some (record { value = true; mode = input pull_none; interrupt_enabled = some falling })
      ∷ none
      ∷ [];
  share_ref = 4;
}

abbrev start : World Gpio
start = record { kernel_data = some (kernel 4); host = gpio }

-- The first pin is read, made an output and driven low; the others fail.
abbrev calls : List (ℕ × Op)
calls =
    (0, read)
    ∷ (0, enable_output)
    ∷ (0, write Api.low)
    ∷ (0, read)
    ∷ (2, disable)
    ∷ (3, disable)
    ∷ []

gpio_refines_example :
    (w' : World Gpio) × (exec_all (fake_syscalls gpio_env) calls start
      ≡ returns ((replay calls (view gpio_env pins data' start)).0, w'))
    × (view gpio_env pins data' w' ≡ (replay calls (view gpio_env pins data' start)).1)
    × IsReady gpio_env pins data' w'
gpio_refines_example =
    gpio_refines gpio_env pins data' (λ c a b v. refl) calls start
      (omega arith, (omega arith, (omega arith, (omega arith, (omega arith, (omega arith, tt))))))
      (kernel 4, refl, refl, refl, omega arith)

-- What the calls mean.
calls_mean :
    (replay calls (view gpio_env pins data' start)).0
    ≡ ok (some Api.high) ∷ ok none ∷ ok none ∷ ok (some Api.low) ∷ err no_device ∷ err invalid ∷ []
unfolding replay
calls_mean = refl

abbrev upcall_9 : Upcall
upcall_9 = record { fn_pointer = some 9; payload = 1 }

abbrev listening : DriverData
listening = record data' { upcalls = (0, upcall_9) ∷ [] }

abbrev queue : List UpcallQueueEntry → KernelData
queue entries = record (kernel 4) { drivers = (4, listening) ∷ []; upcall_queue = entries }

abbrev waits : World Gpio
waits = record { kernel_data = some (queue []); host = gpio }

abbrev fell : Bool → World Gpio
fell told = record {
  kernel_data = some (
      if told
      then queue (
          record {
            args = (1, 0, 0);
            id = record { driver_num = 4; subscribe_num = 0 };
            upcall = upcall_9;
          }
          ∷ [])
      else queue []);
  host = record gpio {
    gpios =
        some (record { value = true; mode = input pull_none; interrupt_enabled = none })
        ∷ some (record { value = false; mode = input pull_none; interrupt_enabled = some falling })
        ∷ none
        ∷ [];
  };
}

set_value_tells_example :
    (set_value pins 1 false waits ≡ returns (ok tt, fell true))
    × ((told : Bool) (j : ℕ)
        → get_gpio_state pins j (fell told) ≡ (
            if 1 == j
            then some
                (record { value = false; mode = input pull_none; interrupt_enabled = some falling })
            else get_gpio_state pins j waits))
set_value_tells_example =
    set_value_tells pins 1 false
      (record { value = true; mode = input pull_none; interrupt_enabled = some falling }) waits
      (queue []) listening 9 1 refl refl (omega arith) refl refl refl
