-- ===== src/Unittest/Fake/Gpio/Session.antt =====
-- The calls of apis/peripherals/gpio/src/lib.rs on pins, on the fake kernel with the fake GPIO of
-- unittest/src/fake/gpio/mod.rs, against what each call means for the state of a pin.
use libtock_rs.Common.{
  ℕ, Bool, true, false, not, Option, none, some, List, [], ◌∷◌, Result, ok, map_ok, Run, ◌>>=◌,
  pure,
}
use libtock_rs.Platform.ErrorCode.{ErrorCode}
use libtock_rs.Platform.RawSyscalls.{RawSyscalls}
use libtock_rs.Platform.CommandReturn.{CommandReturn}
use libtock_rs.Platform.CommandReturn.Data.{to_result, success_unit, success_u32, failure_code}
use libtock_rs.Platform.Syscalls.{Fallible}
use libtock_rs.Apis.Gpio as Api
use libtock_rs.Unittest.Fake.Gpio.{
  GpioState, GpioMode, PullMode, InterruptEdge, output, disabled, input, pull_none, pull_up,
  pull_down, either, rising, falling,
}
use libtock_rs.Unittest.Fake.Gpio.Drives.{Pins, apply_at}

-- A call on a pin.
pub data Op : Type 0 where
  enable_output toggle read disable_interrupts disable : Op
  enable_input : Api.Pull → Op
  write : Api.GpioState → Op
  enable_interrupts : Api.PinInterruptEdge → Op

abbrev pub without_value : {W : Type 0} → Fallible W (Unit {0}) → Fallible W (Option Api.GpioState)
without_value m = m >>= λ r. pure (map_ok (λ _. none) r)

-- The call, whose result has a level where the call reads one.
unfoldable pub exec : {W : Type 0} → RawSyscalls W → ℕ → Op → Fallible W (Option Api.GpioState)
exec raw pin enable_output = without_value (Api.enable_output raw pin)
exec raw pin toggle = without_value (Api.toggle raw pin)
exec raw pin read = Api.read raw pin >>= λ r. pure (map_ok some r)
exec raw pin disable_interrupts = without_value (Api.disable_interrupts raw pin)
exec raw pin disable = without_value (Api.disable raw pin)
exec raw pin (enable_input pull) = without_value (Api.enable_input raw pin (Api.pull_mode pull))
exec raw pin (write wanted) = without_value (Api.write raw pin wanted)
exec raw pin (enable_interrupts edge) = without_value (Api.enable_interrupts raw pin edge)

abbrev pub pull_of : Api.Pull → PullMode
pull_of Api.pull_up = pull_up
pull_of Api.pull_down = pull_down
pull_of Api.pull_none = pull_none

abbrev pub edge_of : Api.PinInterruptEdge → InterruptEdge
edge_of Api.either = either
edge_of Api.rising = rising
edge_of Api.falling = falling

abbrev pub is_high : Api.GpioState → Bool
is_high Api.low = false
is_high Api.high = true

-- Only an output is driven.
abbrev pub driven : Bool → GpioMode → Bool → Bool
driven new output old = new
driven new _ old = old

-- Only an input is read.
abbrev pub level : GpioMode → Bool → Api.GpioState
level (input _) true = Api.high
level _ _ = Api.low

-- What a call means for the state of a pin that is there.
unfoldable pub meaning : Op → GpioState → Result (Option Api.GpioState) ErrorCode × GpioState
meaning enable_output g = (ok none, record g { mode = output })
meaning toggle g = (ok none, record g { value = driven (not g.value) g.mode g.value })
meaning read g = (ok (some (level g.mode g.value)), g)
meaning disable_interrupts g = (ok none, record g { interrupt_enabled = none })
meaning disable g = (ok none, record g { mode = disabled })
meaning (enable_input pull) g = (ok none, record g { mode = input (pull_of pull) })
meaning (write wanted) g = (ok none, record g { value = driven (is_high wanted) g.mode g.value })
meaning (enable_interrupts edge) g = (ok none, record g { interrupt_enabled = some (edge_of edge) })

abbrev pub Answers : Type 0
Answers = List (Result (Option Api.GpioState) ErrorCode)

-- Calls on pins, one after the other, with their results.
unfoldable pub exec_all : {W : Type 0} → RawSyscalls W → List (ℕ × Op) → Run W Answers
unfolding exec
exec_all raw [] = pure []
exec_all raw ((pin, op) ∷ calls) = do
  answer ← exec raw pin op
  answers ← exec_all raw calls
  pure (answer ∷ answers)

-- What they mean.
unfoldable pub replay : List (ℕ × Op) → Pins → Answers × Pins
unfolding meaning
replay [] f = ([], f)
replay ((pin, op) ∷ calls) f =
    let now = apply_at (meaning op) pin f in
    let later = replay calls now.1 in (now.0 ∷ later.0, later.1)

-- The command of a call, its second argument, and how its return is read.
abbrev pub code : Op → ℕ
code enable_output = 1
code toggle = 4
code read = 6
code disable_interrupts = 8
code disable = 9
code (enable_input pull) = 5
code (write wanted) = Api.write_action wanted
code (enable_interrupts edge) = 7

abbrev pub argument : Op → ℕ
argument (enable_input pull) = Api.pull_mode pull
argument (enable_interrupts edge) = Api.edge_number edge
argument _ = 0

abbrev pub decode_level : CommandReturn → Result (Option Api.GpioState) ErrorCode
decode_level r = map_ok some (map_ok Api.from (to_result success_u32 failure_code r))

abbrev pub decode_unit : CommandReturn → Result (Option Api.GpioState) ErrorCode
decode_unit r = map_ok (λ _. none) (to_result success_unit failure_code r)

abbrev pub decode : Op → CommandReturn → Result (Option Api.GpioState) ErrorCode
decode read = decode_level
decode _ = decode_unit
