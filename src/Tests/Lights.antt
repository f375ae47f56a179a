-- ===== src/Tests/Lights.antt =====
-- Tests of apis/interface/leds/src/lib.rs with two fake LEDs.
use libtock_rs.Common.{
  ℕ, ◌≡◌, refl, ◌==◌, if◌then◌else◌, Bool, true, false, some, List, [], ◌∷◌, set, ok, err, returns,
  pure, arith,
}
use libtock_rs.Platform.ErrorCode.{no_support}
use libtock_rs.Platform.AsyncCall.{Place}
use libtock_rs.Apis.Leds
use libtock_rs.Unittest.KernelData.{KernelData, DriverData, SyscallLogEntry}
use libtock_rs.Unittest.World.{World, Env}
use libtock_rs.Unittest.Syscalls.Enter.{enter}
use libtock_rs.Unittest.Fake.{fake_syscalls}
use libtock_rs.Unittest.Fake.Leds.{info, get_led, command}
use libtock_rs.Unittest.Fake.Leds.Lights.{leds_switch}

abbrev lights : Place (World (List Bool)) (List Bool)
lights = record { get = λ w. w.host; put = λ s w. record w { host = s }; get-put = λ s w. refl }

abbrev env : Env (List Bool)
env = record {
  info = λ driver. info;
  register = λ driver n. pure tt;
  command = λ driver c a b. command lights c a b;
  allow_readonly = λ driver n b. pure (err (b, no_support));
  allow_readwrite = λ driver n b. pure (err (b, no_support));
  upcall_fn = λ f args p. pure tt;
}

abbrev data' : DriverData
data' = record { driver = 0; num_upcalls = 0; upcalls = [] }

abbrev kernel : KernelData
kernel = record {
  allow_db = [];
  create_location = 0;
  drivers = (2, data') ∷ [];
  expected_syscalls = [];
  syscall_log = [];
  upcall_queue = [];
  memory_break = 0;
}

-- The second LED is on.
abbrev start : World (List Bool)
start = record { kernel_data = some kernel; host = false ∷ true ∷ [] }

abbrev after : ℕ → ℕ → List Bool → World (List Bool)
after c led leds = record {
  kernel_data = some (enter (SyscallLogEntry.command 2 c led 0) kernel);
  host = leds;
}

leds_switch_example :
    (Leds.on (fake_syscalls env) 1 start ≡ returns (ok tt, after 1 1 (false ∷ true ∷ [])))
    × (Leds.off (fake_syscalls env) 1 start ≡ returns (ok tt, after 2 1 (false ∷ false ∷ [])))
    × (Leds.toggle (fake_syscalls env) 1 start ≡ returns (ok tt, after 3 1 (false ∷ false ∷ [])))
    × ((c j : ℕ) (v : Bool)
        → get_led lights j (after c 1 (set (false ∷ true ∷ []) 1 v))
          ≡ (if 1 == j then some v else get_led lights j start))
leds_switch_example =
    leds_switch env lights start kernel data' 1 (λ c a b v. refl) (λ o. refl) refl refl refl
      (omega arith) (omega arith) true (unfold get_led in refl)
