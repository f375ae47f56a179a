-- ===== src/Unittest/Fake/Gpio/Refines.antt =====
-- Any calls of apis/peripherals/gpio/src/lib.rs on the pins of the fake GPIO of
-- unittest/src/fake/gpio/mod.rs do what they mean.
use libtock_rs.Common.{
  ◌==◌, ℕ, ◌<◌, ◌^◌, ◌≡◌, refl, ◌∙◌, ap, Bool, true, false, not, Option, none, some, List, [], ◌∷◌,
  All, ok, err, map_ok, returns, arith, bind-returns, bind-pure, ◌>>=◌, pure,
}
use libtock_rs.Platform.ErrorCode.{invalid, no_device, as_u32, transmute}
use libtock_rs.Platform.CommandReturn.Data.{to_result, success_unit, success_u32, failure_code}
use libtock_rs.Platform.Syscalls.{Fallible}
use libtock_rs.Platform.Syscalls
use libtock_rs.Platform.AsyncCall.{Place}
use libtock_rs.Apis.Gpio as Api
use libtock_rs.Unittest.CommandReturn.{success, failure}
use libtock_rs.Unittest.CommandReturn
use libtock_rs.Unittest.KernelData.{DriverData}
use libtock_rs.Unittest.World.{World, Env}
use libtock_rs.Unittest.Fake.{fake_syscalls}
use libtock_rs.Unittest.Fake.Command.{IsReturn}
use libtock_rs.Unittest.Fake.Results.{success-IsReturn, word-IsReturn}
use libtock_rs.Unittest.Fake.Gpio.{
  Gpio, GpioState, GpioMode, InterruptEdge, output, disabled, input, pin_command, command,
  input_value, pull_mode_try_from, edge_try_from, if_output,
}
use libtock_rs.Unittest.Fake.Gpio.Drives.{apply_at, stored_or, view, IsReady}
use libtock_rs.Unittest.Fake.Gpio.Steps.{simulates}
use libtock_rs.Unittest.Fake.Gpio.Session.{
  Op, enable_output, toggle, read, disable_interrupts, disable, enable_input, write,
  enable_interrupts, exec, exec_all, replay, meaning, code, argument, decode, decode_unit,
  decode_level, driven, level,
}

unit_decoded :
    (decode_unit (failure invalid) ≡ err invalid)
    × (decode_unit (failure no_device) ≡ err no_device)
unfolding to_result failure transmute as_u32
unit_decoded = (refl, refl)

level_decoded :
    (decode_level (failure invalid) ≡ err invalid)
    × (decode_level (failure no_device) ≡ err no_device)
unfolding to_result failure transmute as_u32
level_decoded = (refl, refl)

unit_success : decode_unit success ≡ ok none
unfolding to_result success
unit_success = refl

level_success : (n : ℕ) → decode_level (CommandReturn.success_u32 n) ≡ ok (some (Api.from n))
unfolding to_result CommandReturn.success_u32
level_success n = refl

decoded :
    (op : Op)
    → (decode op (failure invalid) ≡ err invalid) × (decode op (failure no_device) ≡ err no_device)
decoded enable_output = unit_decoded
decoded toggle = unit_decoded
decoded read = level_decoded
decoded disable_interrupts = unit_decoded
decoded disable = unit_decoded
decoded (enable_input pull) = unit_decoded
decoded (write wanted) = unit_decoded
decoded (enable_interrupts edge) = unit_decoded

abbrev Means : Op → GpioState → Type 0
Means op g =
    (decode op (pin_command (code op) (argument op) g).0 ≡ (meaning op g).0)
    × (stored_or (pin_command (code op) (argument op) g).1 g ≡ (meaning op g).1)
    × IsReturn (pin_command (code op) (argument op) g).0

abbrev state : Bool → GpioMode → Option InterruptEdge → GpioState
state value mode edge = record { value = value; mode = mode; interrupt_enabled = edge }

-- An output is driven, and no other pin.
drives :
    (new value : Bool) (mode : GpioMode) (edge : Option InterruptEdge)
    → stored_or (if_output mode (state new mode edge)) (state value mode edge)
      ≡ state (driven new mode value) mode edge
drives new value output edge = refl
drives new value disabled edge = refl
drives new value (input pull) edge = refl

reads : (mode : GpioMode) (value : Bool) → Api.from (input_value mode value) ≡ level mode value
unfolding Api.from
reads output value = refl
reads disabled value = refl
reads (input pull) true = refl
reads (input pull) false = refl

reads_word : (mode : GpioMode) (value : Bool) → input_value mode value < 2 ^ 32
reads_word output value = omega arith
reads_word disabled value = omega arith
reads_word (input pull) true = omega arith
reads_word (input pull) false = omega arith

means : (op : Op) (g : GpioState) → Means op g
unfolding pin_command meaning pull_mode_try_from edge_try_from
means enable_output g = (unit_success, refl, success-IsReturn)
means toggle g =
    (unit_success, drives (not g.value) g.value g.mode g.interrupt_enabled, success-IsReturn)
means read g = (
  level_success (input_value g.mode g.value) ∙ ap (λ l. ok (some l)) (reads g.mode g.value),
  refl,
  word-IsReturn (input_value g.mode g.value) (reads_word g.mode g.value),
)
means disable_interrupts g = (unit_success, refl, success-IsReturn)
means disable g = (unit_success, refl, success-IsReturn)
means (enable_input Api.pull_up) g = (unit_success, refl, success-IsReturn)
means (enable_input Api.pull_down) g = (unit_success, refl, success-IsReturn)
means (enable_input Api.pull_none) g = (unit_success, refl, success-IsReturn)
means (write Api.low) g =
    (unit_success, drives false g.value g.mode g.interrupt_enabled, success-IsReturn)
means (write Api.high) g =
    (unit_success, drives true g.value g.mode g.interrupt_enabled, success-IsReturn)
means (enable_interrupts Api.either) g = (unit_success, refl, success-IsReturn)
means (enable_interrupts Api.rising) g = (unit_success, refl, success-IsReturn)
means (enable_interrupts Api.falling) g = (unit_success, refl, success-IsReturn)

-- The commands are those of one pin, and all numbers fit in 32 bits.
abbrev IsPinCommand : ℕ → ℕ → Type 0
IsPinCommand c b = ((c == 0) ≡ false) × ((c == 10) ≡ false) × (c < 2 ^ 32) × (b < 2 ^ 32)

code-IsPinCommand : (op : Op) → IsPinCommand (code op) (argument op)
code-IsPinCommand enable_output = (refl, refl, omega arith, omega arith)
code-IsPinCommand toggle = (refl, refl, omega arith, omega arith)
code-IsPinCommand read = (refl, refl, omega arith, omega arith)
code-IsPinCommand disable_interrupts = (refl, refl, omega arith, omega arith)
code-IsPinCommand disable = (refl, refl, omega arith, omega arith)
code-IsPinCommand (enable_input Api.pull_up) = (refl, refl, omega arith, omega arith)
code-IsPinCommand (enable_input Api.pull_down) = (refl, refl, omega arith, omega arith)
code-IsPinCommand (enable_input Api.pull_none) = (refl, refl, omega arith, omega arith)
code-IsPinCommand (write Api.low) = (refl, refl, omega arith, omega arith)
code-IsPinCommand (write Api.high) = (refl, refl, omega arith, omega arith)
code-IsPinCommand (enable_interrupts Api.either) = (refl, refl, omega arith, omega arith)
code-IsPinCommand (enable_interrupts Api.rising) = (refl, refl, omega arith, omega arith)
code-IsPinCommand (enable_interrupts Api.falling) = (refl, refl, omega arith, omega arith)

-- A call on a pin that fits in 32 bits.
abbrev IsCall : ℕ × Op → Type 0
IsCall call = call.0 < 2 ^ 32

module _ {H : Type 0} (env : Env H) (place : Place H Gpio) (d : DriverData)
    (is_gpio : (c a b : ℕ) (v : World H)
      → env.command d.driver c a b v ≡ command place c a b v) where
  -- A call is its command.
  is_command :
      (pin : ℕ) (op : Op) (w : World H)
      → exec (fake_syscalls env) pin op w
        ≡ (Syscalls.command (fake_syscalls env) 4 (code op) pin (argument op) >>= λ r.
              pure (decode op r))
            w
  unfolding exec Api.enable_output Api.toggle Api.read Api.disable_interrupts Api.disable
      Api.enable_input Api.write Api.enable_interrupts
  is_command pin enable_output w =
      bind-pure
        (Syscalls.command (fake_syscalls env) 4 (code enable_output) pin (argument enable_output))
        (to_result success_unit failure_code) (map_ok (λ _. none)) w
  is_command pin toggle w =
      bind-pure (Syscalls.command (fake_syscalls env) 4 (code toggle) pin (argument toggle))
        (to_result success_unit failure_code) (map_ok (λ _. none)) w
  is_command pin read w =
      bind-pure (Syscalls.command (fake_syscalls env) 4 (code read) pin (argument read))
        (λ r. map_ok Api.from (to_result success_u32 failure_code r)) (map_ok some) w
  is_command pin disable_interrupts w =
      bind-pure
        (Syscalls.command (fake_syscalls env) 4 (code disable_interrupts) pin
          (argument disable_interrupts))
        (to_result success_unit failure_code) (map_ok (λ _. none)) w
  is_command pin disable w =
      bind-pure (Syscalls.command (fake_syscalls env) 4 (code disable) pin (argument disable))
        (to_result success_unit failure_code) (map_ok (λ _. none)) w
  is_command pin (enable_input Api.pull_up) w =
      bind-pure
        (Syscalls.command (fake_syscalls env) 4 (code (enable_input Api.pull_up)) pin
          (argument (enable_input Api.pull_up)))
        (to_result success_unit failure_code) (map_ok (λ _. none)) w
  is_command pin (enable_input Api.pull_down) w =
      bind-pure
        (Syscalls.command (fake_syscalls env) 4 (code (enable_input Api.pull_down)) pin
          (argument (enable_input Api.pull_down)))
        (to_result success_unit failure_code) (map_ok (λ _. none)) w
  is_command pin (enable_input Api.pull_none) w =
      bind-pure
        (Syscalls.command (fake_syscalls env) 4 (code (enable_input Api.pull_none)) pin
          (argument (enable_input Api.pull_none)))
        (to_result success_unit failure_code) (map_ok (λ _. none)) w
  is_command pin (write Api.low) w =
      bind-pure
        (Syscalls.command (fake_syscalls env) 4 (code (write Api.low)) pin
          (argument (write Api.low)))
        (to_result success_unit failure_code) (map_ok (λ _. none)) w
  is_command pin (write Api.high) w =
      bind-pure
        (Syscalls.command (fake_syscalls env) 4 (code (write Api.high)) pin
          (argument (write Api.high)))
        (to_result success_unit failure_code) (map_ok (λ _. none)) w
  is_command pin (enable_interrupts Api.either) w =
      bind-pure
        (Syscalls.command (fake_syscalls env) 4 (code (enable_interrupts Api.either)) pin
          (argument (enable_interrupts Api.either)))
        (to_result success_unit failure_code) (map_ok (λ _. none)) w
  is_command pin (enable_interrupts Api.rising) w =
      bind-pure
        (Syscalls.command (fake_syscalls env) 4 (code (enable_interrupts Api.rising)) pin
          (argument (enable_interrupts Api.rising)))
        (to_result success_unit failure_code) (map_ok (λ _. none)) w
  is_command pin (enable_interrupts Api.falling) w =
      bind-pure
        (Syscalls.command (fake_syscalls env) 4 (code (enable_interrupts Api.falling)) pin
          (argument (enable_interrupts Api.falling)))
        (to_result success_unit failure_code) (map_ok (λ _. none)) w

  -- One call.
  refines_one :
      (pin : ℕ) (op : Op) (w : World H)
      → pin < 2 ^ 32
      → IsReady env place d w
      → (w' : World H) × (exec (fake_syscalls env) pin op w
          ≡ returns ((apply_at (meaning op) pin (view env place d w)).0, w'))
        × (view env place d w' ≡ (apply_at (meaning op) pin (view env place d w)).1)
        × IsReady env place d w'
  refines_one pin op w pin32 ready =
      let (w', run, pins, ready') =
        simulates env place d is_gpio (meaning op) (decode op) (code op) (argument op) pin
          (code-IsPinCommand op).0 (code-IsPinCommand op).1 (code-IsPinCommand op).2
          (code-IsPinCommand op).3 pin32 (decoded op) (means op) w ready in
      (w', is_command pin op w ∙ run, pins, ready')

  -- Any calls of the interface on pins whose numbers fit in 32 bits return what they mean, one after the
  -- other, and leave the pins as they mean: a pin beyond the last one answers `Invalid`, and a missing one
  -- `NoDevice`, without a change; an output is driven by set, clear and toggle, and any other pin is not;
  -- an input reads its value, and any other pin is low. No system call is expected, the driver with the
  -- number 4 is the fake GPIO, and it has fewer than `2 ^ 32` pins.
  pub gpio_refines :
      (calls : List (ℕ × Op)) (w : World H)
      → All IsCall calls
      → IsReady env place d w
      → (w' : World H) × (exec_all (fake_syscalls env) calls w
          ≡ returns ((replay calls (view env place d w)).0, w'))
        × (view env place d w' ≡ (replay calls (view env place d w)).1)
        × IsReady env place d w'
  unfolding exec_all replay
  gpio_refines [] w h ready = (w, refl, refl, ready)
  gpio_refines ((pin, op) ∷ calls) w h ready =
      let raw = fake_syscalls env in
      let (w1, run, pins, ready1) = refines_one pin op w h.0 ready in
      let (w2, run2, pins2, ready2) = gpio_refines calls w1 h.1 ready1 in
      let answer = (apply_at (meaning op) pin (view env place d w)).0 in
      (
        w2,
        bind-returns (exec raw pin op) (λ a. exec_all raw calls >>= λ bs. pure (a ∷ bs)) run
            ∙ bind-returns (exec_all raw calls) (λ bs. pure (answer ∷ bs)) run2
            ∙ ap (λ f. returns (answer ∷ (replay calls f).0, w2)) pins,
        pins2 ∙ ap (λ f. (replay calls f).1) pins,
        ready2,
      )
