-- ===== src/Tests/Prints.antt =====
-- A test of apis/kernel/low_level_debug/src/lib.rs: an alert and two numbers behind an earlier message.
use libtock_rs.Common.{◌≡◌, refl, some, List, [], ◌∷◌, returns, pure, arith}
use libtock_rs.Platform.AsyncCall.{Place}
use libtock_rs.Apis.LowLevelDebug.{wrong_location}
use libtock_rs.Unittest.World.{World, Env}
use libtock_rs.Unittest.Fake.{fake_syscalls}
use libtock_rs.Unittest.Fake.LowLevelDebug.{LowLevelDebug, print_1, info, command}
use libtock_rs.Unittest.Fake.LowLevelDebug.Prints.{
  Print, alert, two, message, print_all, Appends, prints_in_order,
}
use libtock_rs.Tests.Hosts as Hosts
use libtock_rs.Tests.Hosts.{kernel, data'}

abbrev messages : Place LowLevelDebug LowLevelDebug
messages = record { get = λ h. h; put = λ s h. s; get-put = λ s h. refl }

abbrev debug_env : Env LowLevelDebug
debug_env = Hosts.env info (command messages) (λ args. pure tt)

abbrev begin : World LowLevelDebug
begin = record { kernel_data = some (kernel 8); host = print_1 5 ∷ [] }

abbrev prints : List Print
prints = alert wrong_location ∷ two 3 4 ∷ []

prints_in_order_example :
    (v : World LowLevelDebug) × (print_all (fake_syscalls debug_env) prints begin ≡ returns (tt, v))
    × Appends debug_env messages data'
        (λ c a b v. refl)
        (message (alert wrong_location) ∷ message (two 3 4) ∷ [])
        begin
        v
prints_in_order_example =
    prints_in_order debug_env messages data' (λ c a b v. refl) prints begin
      (tt, ((omega arith, omega arith), tt)) (kernel 8, refl, refl, refl)
