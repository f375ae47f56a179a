-- ===== src/Unittest/Fake/Results.antt =====
-- What an interface makes of the usual returns of a driver: `to_result` of
-- platform/src/command_return.rs on the constructors of unittest/src/command_return.rs, on the fake
-- kernel.
use libtock_rs.Common.{
  ℕ, ◌<◌, ◌^◌, ◌≡◌, refl, ◌∙◌, ap, some, [], lookup, ok, returns, arith, bind-returns, ◌>>=◌, pure,
}
use libtock_rs.Platform.ErrorCode.{ErrorCode, as_u32}
use libtock_rs.Platform.CommandReturn.{CommandReturn}
use libtock_rs.Platform.CommandReturn.Data
use libtock_rs.Platform.CommandReturn.Data.{to_result, success_unit, failure_code}
use libtock_rs.Platform.Syscalls
use libtock_rs.Unittest.CommandReturn.{success, success_u32, failure}
use libtock_rs.Unittest.KernelData.{KernelData, DriverData}
use libtock_rs.Unittest.World.{World, Env}
use libtock_rs.Unittest.Fake.{fake_syscalls}
use libtock_rs.Unittest.Fake.Command.{IsReturn, command_routes, entered}

pub success-IsReturn : IsReturn success
unfolding success
success-IsReturn =
    (omega arith, record { word_1 = omega arith; word_2 = omega arith; word_3 = omega arith })

pub word-IsReturn : (n : ℕ) → n < 2 ^ 32 → IsReturn (success_u32 n)
unfolding success_u32
word-IsReturn n h = (omega arith, record { word_1 = h; word_2 = omega arith; word_3 = omega arith })

pub failure-IsReturn : (e : ErrorCode) → as_u32 e < 2 ^ 32 → IsReturn (failure e)
unfolding failure
failure-IsReturn e h =
    (omega arith, record { word_1 = h; word_2 = omega arith; word_3 = omega arith })

pub success-result : to_result success_unit failure_code success ≡ ok tt
unfolding to_result success
success-result = refl

pub word-result : (n : ℕ) → to_result Data.success_u32 failure_code (success_u32 n) ≡ ok n
unfolding to_result success_u32
word-result n = refl

module _ {H A : Type 0} (env : Env H) (d c a b : ℕ) (w : World H) (k : KernelData) (hd : d < 2 ^ 32)
    (hc : c < 2 ^ 32) (ha : a < 2 ^ 32) (hb : b < 2 ^ 32) (hk : w.kernel_data ≡ some k)
    (he : k.expected_syscalls ≡ []) (data' : DriverData)
    (hl : lookup d k.drivers ≡ some data') where
  -- What the application makes of the driver's return.
  pub command_gives :
      (decode : CommandReturn → A) (r : CommandReturn) (x : A) (w' : World H)
      → env.command data'.driver c a b (entered env d c a b w k hd hc ha hb hk) ≡ returns (r, w')
      → IsReturn r
      → decode r ≡ x
      → (Syscalls.command (fake_syscalls env) d c a b >>= λ r. pure (decode r)) w ≡ returns (x, w')
  command_gives decode r x w' run h e =
      bind-returns (Syscalls.command (fake_syscalls env) d c a b) (λ r. pure (decode r))
        (command_routes env d c a b w k hd hc ha hb hk data' r w' he hl run h)
      ∙ ap (λ y. returns (y, w')) e
