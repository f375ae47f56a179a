-- ===== src/Unittest/Fake/Gpio/Steps.antt =====
-- A command on one pin through `command` of platform/src/syscalls_impl.rs, on the fake GPIO of
-- unittest/src/fake/gpio/mod.rs, does to the application's pins what a step on one pin's state does.
use libtock_rs.Common.{
  ℕ, ◌<◌, ◌^◌, ◌≡◌, refl, ◌∙◌, ap, false, Option, none, some, [], length, get_elem?, set, lookup,
  ◌==◌, Result, err, returns, arith, ◌>>=◌, pure, Bool-cases, ==→eq, inl, inr,
}
use libtock_rs.Platform.ErrorCode.{ErrorCode, invalid, no_device, as_u32}
use libtock_rs.Platform.CommandReturn.{CommandReturn}
use libtock_rs.Platform.Syscalls
use libtock_rs.Platform.AsyncCall.{Place}
use libtock_rs.Unittest.CommandReturn.{failure}
use libtock_rs.Unittest.KernelData.{KernelData, DriverData, SyscallLogEntry}
use libtock_rs.Unittest.World.{World, Env}
use libtock_rs.Unittest.Syscalls.Enter.{enter, rest}
use libtock_rs.Unittest.Fake.{fake_syscalls}
use libtock_rs.Unittest.Fake.Command.{IsReturn}
use libtock_rs.Unittest.Fake.Results.{command_gives, failure-IsReturn}
use libtock_rs.Unittest.Fake.Lists.{get_elem?-set, length-set}
use libtock_rs.Unittest.Fake.Gpio.{Gpio, GpioState, set_gpio, pin_command, store_gpio, command}
use libtock_rs.Unittest.Fake.Gpio.Drives.{
  update, applied, stored_or, view, IsReady, drives_beyond, drives_missing, drives_pin,
}

module _ {H R : Type 0} (env : Env H) (place : Place H Gpio) (d : DriverData)
    (is_gpio : (c a b : ℕ) (v : World H) → env.command d.driver c a b v ≡ command place c a b v)
    (step : GpioState → Result R ErrorCode × GpioState)
    (decode : CommandReturn → Result R ErrorCode) (c b pin : ℕ) (not_exists : (c == 0) ≡ false)
    (not_count : (c == 10) ≡ false) (c32 : c < 2 ^ 32) (b32 : b < 2 ^ 32)
    (pin32 : pin < 2 ^ 32) where
  -- The command is the step on a pin's state.
  abbrev pub IsStep : Type 0
  IsStep =
      (g : GpioState)
      → (decode (pin_command c b g).0 ≡ (step g).0)
        × (stored_or (pin_command c b g).1 g ≡ (step g).1)
        × IsReturn (pin_command c b g).0

  abbrev pub IsDecoded : Type 0
  IsDecoded =
      (decode (failure invalid) ≡ err invalid) × (decode (failure no_device) ≡ err no_device)

  -- The call returns what the step returns, and leaves the pins as the step does, ready for the next.
  abbrev pub SimulatesAt : Option (Option GpioState) → World H → Type 0
  SimulatesAt o w =
      (w' : World H) × ((Syscalls.command (fake_syscalls env) 4 c pin b >>= λ r. pure (decode r)) w
        ≡ returns ((applied step pin (view env place d w) o).0, w'))
      × (view env place d w' ≡ (applied step pin (view env place d w) o).1)
      × IsReady env place d w'

  module _ (w : World H) (k : KernelData) (hk : w.kernel_data ≡ some k)
      (he : k.expected_syscalls ≡ []) (hl : lookup 4 k.drivers ≡ some d)
      (small : length (place.get w.host).gpios < 2 ^ 32) where
    abbrev after : KernelData
    after = enter (SyscallLogEntry.command 4 c pin b) k

    abbrev logged : World H
    logged = record w { kernel_data = some after }

    abbrev stored : GpioState → World H
    stored g = set_gpio place pin (some g) logged

    gives :
        (r : CommandReturn) (x : Result R ErrorCode) (w' : World H)
        → command place c pin b logged ≡ returns (r, w')
        → IsReturn r
        → decode r ≡ x
        → (Syscalls.command (fake_syscalls env) 4 c pin b >>= λ r. pure (decode r)) w
          ≡ returns (x, w')
    gives r x w' run h e =
        command_gives env 4 c pin b w k (omega arith) c32 pin32 b32 hk he d hl decode r x w'
          (is_gpio c pin b logged ∙ run) h e

    IsReady-logged : IsReady env place d logged
    IsReady-logged = (after, refl, ap rest he, hl, small)

    simulates_beyond : IsDecoded → view env place d w pin ≡ none → SimulatesAt none w
    simulates_beyond h e = (
      logged,
      gives (failure invalid) (err invalid) logged
          (drives_beyond env place d c b pin logged not_exists not_count small e)
          (failure-IsReturn invalid (unfold as_u32 in omega arith)) h.0,
      refl,
      IsReady-logged,
    )

    simulates_missing : IsDecoded → view env place d w pin ≡ some none → SimulatesAt (some none) w
    simulates_missing h e = (
      logged,
      gives (failure no_device) (err no_device) logged
          (drives_missing env place d c b pin logged not_exists not_count small e)
          (failure-IsReturn no_device (unfold as_u32 in omega arith)) h.1,
      refl,
      IsReady-logged,
    )

    -- The world after a stored state, where one is stored.
    abbrev world_of : Option GpioState → World H
    world_of none = logged
    world_of (some g) = stored g

    store_gpio_lem :
        (x : CommandReturn × Option GpioState)
        → store_gpio place pin x logged ≡ returns (x.0, world_of x.1)
    store_gpio_lem (r, none) = refl
    store_gpio_lem (r, some g) = refl

    view-stored :
        (g : GpioState) (j : ℕ) (old : Option GpioState)
        → view env place d w pin ≡ some old
        → view env place d (stored g) j ≡ update (view env place d w) pin g j
    view-stored g j old e =
        ap (λ (s : Gpio). get_elem? s.gpios j) (place.get-put _ w.host)
        ∙ get_elem?-set (place.get w.host).gpios pin j old (some g) e

    -- Storing the state that is there already changes nothing.
    view_same :
        (g : GpioState) (j : ℕ)
        → view env place d w pin ≡ some (some g)
        → view env place d w j ≡ update (view env place d w) pin g j
    view_same g j e = elim (Bool-cases (pin == j)) [
      | inl same ↦ rw (same) (rw (← ==→eq pin j same) e)
      | inr other ↦ rw (other) refl
    ]

    view_after :
        (o : Option GpioState) (g : GpioState)
        → view env place d w pin ≡ some (some g)
        → view env place d (world_of o) ≡ update (view env place d w) pin (stored_or o g)
    view_after none g e = λ i j. view_same g j e i
    view_after (some g') g e = λ i j. view-stored g' j (some g) e i

    IsReady-after : (o : Option GpioState) → IsReady env place d (world_of o)
    IsReady-after none = IsReady-logged
    IsReady-after (some g) = (
      after,
      refl,
      ap rest he,
      hl,
      rw
          (place.get-put
            (record (place.get w.host) { gpios = set (place.get w.host).gpios pin (some g) })
            w.host)
          (omega (arith, small, length-set (place.get w.host).gpios pin (some g))),
    )

    simulates_pin :
        IsStep
        → (g : GpioState) → view env place d w pin ≡ some (some g)
        → SimulatesAt (some (some g)) w
    simulates_pin h g e = (
      world_of (pin_command c b g).1,
      gives (pin_command c b g).0 (step g).0 (world_of (pin_command c b g).1)
          (drives_pin env place d c b pin logged not_exists not_count small g e
            ∙ store_gpio_lem (pin_command c b g))
          (h g).2 (h g).0,
      view_after (pin_command c b g).1 g e ∙ ap (update (view env place d w) pin) (h g).1,
      IsReady-after (pin_command c b g).1,
    )

  pub simulates :
      IsDecoded
      → IsStep
      → (w : World H) → IsReady env place d w
      → SimulatesAt (view env place d w pin) w
  simulates hd hs w (k, hk, he, hl, small) = split (view env place d w pin) refl
    where
      split : (o : Option (Option GpioState)) → view env place d w pin ≡ o → SimulatesAt o w
      split none e = simulates_beyond w k hk he hl small hd e
      split (some none) e = simulates_missing w k hk he hl small hd e
      split (some (some g)) e = simulates_pin w k hk he hl small hs g e
