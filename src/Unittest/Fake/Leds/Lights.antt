-- ===== src/Unittest/Fake/Leds/Lights.antt =====
-- apis/interface/leds/src/lib.rs on the fake kernel with the fake LEDs of
-- unittest/src/fake/leds/mod.rs.
use libtock_rs.Common.{
  ℕ, ◌<◌, ◌≤◌, ◌^◌, ◌≡◌, refl, ◌∙◌, ap, Bool, true, false, not, Option, some, List, [], length,
  get_elem?, set, lookup, ◌==◌, if◌then◌else◌, Result, ok, err, returns, arith, ◌>>=◌, pure,
}
use libtock_rs.Platform.ErrorCode.{ErrorCode, invalid, as_u32, transmute}
use libtock_rs.Platform.CommandReturn.{CommandReturn}
use libtock_rs.Platform.CommandReturn.Data.{to_result, success_unit, failure_code}
use libtock_rs.Platform.AsyncCall.{Place}
use libtock_rs.Platform.Syscalls
use libtock_rs.Apis.Leds
use libtock_rs.Unittest.CommandReturn.{success, failure}
use libtock_rs.Unittest.KernelData.{KernelData, DriverData, SyscallLogEntry}
use libtock_rs.Unittest.World.{World, Env}
use libtock_rs.Unittest.Syscalls.Enter.{enter}
use libtock_rs.Unittest.Fake.{fake_syscalls}
use libtock_rs.Unittest.Fake.Command.{IsReturn}
use libtock_rs.Unittest.Fake.Results.{command_gives, success-IsReturn, success-result}
use libtock_rs.Unittest.Fake.Lists.{get_elem?-set, get_elem?-lt}
use libtock_rs.Unittest.Fake.Leds.{get_led, switch, command}

invalid-IsReturn : IsReturn (failure invalid)
unfolding failure as_u32
invalid-IsReturn =
    (omega arith, record { word_1 = omega arith; word_2 = omega arith; word_3 = omega arith })

invalid-result : to_result success_unit failure_code (failure invalid) ≡ err invalid
unfolding to_result failure transmute as_u32
invalid-result = refl

-- The fake LEDs, whose state is apart from the kernel's data, are the driver with the number 2.
module _ {H : Type 0} (env : Env H) (place : Place (World H) (List Bool)) (w : World H)
    (k : KernelData) (data' : DriverData) (led : ℕ)
    (is_leds : (c a b : ℕ) (v : World H) → env.command data'.driver c a b v ≡ command place c a b v)
    (apart : (o : Option KernelData) → place.get (record w { kernel_data = o }) ≡ place.get w)
    (hk : w.kernel_data ≡ some k) (he : k.expected_syscalls ≡ [])
    (hl : lookup 2 k.drivers ≡ some data') (small : length (place.get w) < 2 ^ 32)
    (h32 : led < 2 ^ 32) where
  -- The world where the command is logged.
  abbrev entered : ℕ → World H
  entered c = record w { kernel_data = some (enter (SyscallLogEntry.command 2 c led 0) k) }

  -- Where besides this LED is set.
  abbrev switched : ℕ → Bool → World H
  switched c b = place.put (set (place.get w) led b) (entered c)

  switch_in :
      (change : Bool → Bool) (c : ℕ) (b : Bool)
      → get_elem? (place.get w) led ≡ some b
      → switch place change led (entered c) ≡ returns (success, switched c (change b))
  unfolding switch
  switch_in change c b h =
      let low = get_elem?-lt (place.get w) led b h in
      rw (apart (some (enter (SyscallLogEntry.command 2 c led 0) k)), h)
        (ground (arith, low, apart (some (enter (SyscallLogEntry.command 2 c led 0) k))))

  switch_out :
      (change : Bool → Bool) (c : ℕ)
      → length (place.get w) ≤ led
      → switch place change led (entered c) ≡ returns (failure invalid, entered c)
  unfolding switch
  switch_out change c h =
      rw (apart (some (enter (SyscallLogEntry.command 2 c led 0) k))) (ground arith)

  -- What the interface makes of the driver's return.
  result_of :
      (c : ℕ) (r : CommandReturn) (x : Result (Unit {0}) ErrorCode) (w' : World H)
      → c < 2 ^ 32
      → command place c led 0 (entered c) ≡ returns (r, w')
      → IsReturn r
      → to_result success_unit failure_code r ≡ x
      → (Syscalls.command (fake_syscalls env) 2 c led 0 >>= λ r.
            pure (to_result success_unit failure_code r))
          w
        ≡ returns (x, w')
  result_of c r x w' hc run h e =
      command_gives env 2 c led 0 w k (omega arith) hc h32 (omega arith) hk he data' hl
        (to_result success_unit failure_code) r x w' (is_leds c led 0 (entered c) ∙ run) h e

  -- Turning an LED that there is on or off, or toggling it, succeeds: afterwards it is on, off or the
  -- other way round, and every other LED is as before. There are fewer than `2 ^ 32` LEDs, and no
  -- system call is expected.
  pub leds_switch :
      (b : Bool)
      → get_led place led w ≡ some b
      → (Leds.on (fake_syscalls env) led w ≡ returns (ok tt, switched 1 true))
        × (Leds.off (fake_syscalls env) led w ≡ returns (ok tt, switched 2 false))
        × (Leds.toggle (fake_syscalls env) led w ≡ returns (ok tt, switched 3 (not b)))
        × ((c j : ℕ) (v : Bool)
            → get_led place j (switched c v) ≡ (if led == j then some v else get_led place j w))
  unfolding Leds.on Leds.off Leds.toggle command get_led
  leds_switch b h = (
    result_of 1 success (ok tt) (switched 1 true) (omega arith) (switch_in (λ _. true) 1 b h)
        success-IsReturn success-result,
    result_of 2 success (ok tt) (switched 2 false) (omega arith) (switch_in (λ _. false) 2 b h)
        success-IsReturn success-result,
    result_of 3 success (ok tt) (switched 3 (not b)) (omega arith) (switch_in not 3 b h)
        success-IsReturn success-result,
    λ c j v.
        ap (λ xs. get_elem? xs j) (place.get-put (set (place.get w) led v) (entered c))
        ∙ get_elem?-set (place.get w) led j b v h,
  )

  -- Turning an LED that there is not on or off, or toggling it, fails with `Invalid`, and changes no
  -- more than the log. There are fewer than `2 ^ 32` LEDs, and no system call is expected.
  pub leds_invalid :
      length (place.get w) ≤ led
      → (Leds.on (fake_syscalls env) led w ≡ returns (err invalid, entered 1))
        × (Leds.off (fake_syscalls env) led w ≡ returns (err invalid, entered 2))
        × (Leds.toggle (fake_syscalls env) led w ≡ returns (err invalid, entered 3))
  unfolding Leds.on Leds.off Leds.toggle command
  leds_invalid h = (
    result_of 1 (failure invalid) (err invalid) (entered 1) (omega arith)
        (switch_out (λ _. true) 1 h) invalid-IsReturn invalid-result,
    result_of 2 (failure invalid) (err invalid) (entered 2) (omega arith)
        (switch_out (λ _. false) 2 h) invalid-IsReturn invalid-result,
    result_of 3 (failure invalid) (err invalid) (entered 3) (omega arith) (switch_out not 3 h)
        invalid-IsReturn invalid-result,
  )
