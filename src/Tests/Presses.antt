-- ===== src/Tests/Presses.antt =====
-- Tests of apis/interface/buttons/src/lib.rs with two fake buttons.
use libtock_rs.Common.{
  ℕ, ◌≡◌, refl, ◌==◌, if◌then◌else◌, Bool, true, false, some, List, [], ◌∷◌, ok, returns, arith,
}
use libtock_rs.Platform.AsyncCall.{Place}
use libtock_rs.Apis.Buttons as Api
use libtock_rs.Unittest.KernelData.{
  KernelData, DriverData, Upcall, UpcallQueueEntry, SyscallLogEntry,
}
use libtock_rs.Unittest.World.{World, Env, pure}
use libtock_rs.Unittest.Syscalls.Enter.{enter}
use libtock_rs.Unittest.Fake.{fake_syscalls}
use libtock_rs.Unittest.Fake.Buttons.{Buttons, info, command, set_pressed, get_button_state}
use libtock_rs.Unittest.Fake.Buttons.Presses.{set_pressed_tells, button-Reads}
use libtock_rs.Tests.Hosts.{env, kernel, data'}

abbrev place : Place Buttons Buttons
place = record { get = λ s. s; put = λ s _. s; get-put = λ s v. refl }

abbrev buttons_env : Env Buttons
buttons_env = env info (command place) (λ args. pure tt)

-- The second button has its interrupts enabled.
abbrev buttons : Bool → Buttons
buttons pressed = record {
  buttons =
      record { pressed = false; interrupt_enabled = false }
      ∷ record { pressed = pressed; interrupt_enabled = true }
      ∷ [];
  share_ref = 3;
}

abbrev upcall_9 : Upcall
upcall_9 = record { fn_pointer = some 9; payload = 1 }

abbrev listening : DriverData
listening = record data' { upcalls = (0, upcall_9) ∷ [] }

abbrev queue : List UpcallQueueEntry → KernelData
queue entries = record (kernel 3) { drivers = (3, listening) ∷ []; upcall_queue = entries }

abbrev start : World Buttons
start = record { kernel_data = some (queue []); host = buttons false }

abbrev pressed : Bool → World Buttons
pressed told = record {
  kernel_data = some (
      if told
      then queue (
          record {
            args = (1, 1, 0);
            id = record { driver_num = 3; subscribe_num = 0 };
            upcall = upcall_9;
          }
          ∷ [])
      else queue []);
  host = buttons true;
}

set_pressed_tells_example :
    (set_pressed place 1 true start ≡ returns (ok tt, pressed true))
    × ((told : Bool) (j : ℕ)
        → get_button_state place j (pressed told) ≡ (
            if 1 == j
            then some (record { pressed = true; interrupt_enabled = true })
            else get_button_state place j start))
set_pressed_tells_example =
    set_pressed_tells place 1 true (record { pressed = false; interrupt_enabled = true }) start
      (queue []) listening 9 1 refl refl (omega arith) refl refl refl

abbrev after : World Buttons
after = record {
  kernel_data = some (enter (SyscallLogEntry.command 3 3 1 0) (queue []));
  host = buttons true;
}

button-Reads_example :
    (Api.read (fake_syscalls buttons_env) 1 (pressed false) ≡ returns (ok Api.pressed, after))
    × (Api.is_pressed (fake_syscalls buttons_env) 1 (pressed false) ≡ returns (true, after))
    × (Api.is_released (fake_syscalls buttons_env) 1 (pressed false) ≡ returns (false, after))
unfolding get_button_state
button-Reads_example =
    button-Reads buttons_env place (pressed false) (queue []) listening 1 (λ c a b v. refl) refl
      refl refl (omega arith) (omega arith)
