-- ===== src/Unittest/Fake/Buttons/Presses.antt =====
-- `set_pressed` of unittest/src/fake/buttons/mod.rs, and what apis/interface/buttons/src/lib.rs then reads
-- on the fake kernel.
use libtock_rs.Common.{
  ℕ, ◌<◌, ◌^◌, ◌≡◌, refl, ◌∙◌, ap, Bool, true, false, not, ◌&&◌, Option, none, some, [], lookup,
  length, get_elem?, if◌then◌else◌, ok, err, map_ok, Result, returns, arith, bind-returns, ◌>>=◌,
  pure, ◌==◌,
}
use libtock_rs.Platform.ErrorCode.{ErrorCode, invalid, as_u32, transmute}
use libtock_rs.Platform.CommandReturn.{CommandReturn}
use libtock_rs.Platform.CommandReturn.Data.{to_result, success_u32, failure_code}
use libtock_rs.Platform.AsyncCall.{Place}
use libtock_rs.Apis.Buttons as Api
use libtock_rs.Unittest.CommandReturn
use libtock_rs.Unittest.CommandReturn.{failure}
use libtock_rs.Unittest.KernelData.{KernelData, DriverData, SyscallLogEntry}
use libtock_rs.Unittest.World.{World, Env}
use libtock_rs.Unittest.ShareData.{schedule_upcall}
use libtock_rs.Unittest.Syscalls.Enter.{enter}
use libtock_rs.Unittest.Fake.{fake_syscalls}
use libtock_rs.Unittest.Fake.Results.{command_gives, word-IsReturn, word-result, failure-IsReturn}
use libtock_rs.Unittest.Fake.Subscribed.{enqueued, schedule_last}
use libtock_rs.Unittest.ShareData.{expected}
use libtock_rs.Unittest.Fake.Lists.{get_elem?-set, get_elem?-lt, get_elem?-ge}
use libtock_rs.Unittest.Fake.Gpio.{bit, bool_ne}
use libtock_rs.Unittest.Fake.Buttons.{
  Buttons, ButtonState, set_button, set_pressed, notify, get_button_state, command,
}

module _ {H : Type 0} (place : Place H Buttons) (button : ℕ) (pressed : Bool)
    (original : ButtonState) (w : World H) (k : KernelData) (d : DriverData) (f p : ℕ)
    (hk : w.kernel_data ≡ some k) (hd : lookup 3 k.drivers ≡ some d) (h : 0 < d.num_upcalls)
    (hu : lookup 0 d.upcalls ≡ some (record { fn_pointer = some f; payload = p }))
    (share : (place.get w.host).share_ref ≡ 3)
    (there : get_elem? (place.get w.host).buttons button ≡ some original) where
  -- The world where the state is stored and the upcall is queued or not.
  abbrev changed : Bool → World H
  changed told = record (set_button place button (record original { pressed = pressed }) w) {
    kernel_data = some (if told then enqueued 3 0 (button, bit pressed, 0) f p k else k);
  }

  abbrev untold : World H
  untold = set_button place button (record original { pressed = pressed }) w

  tells :
      (b : Bool)
      → (if b
          then (schedule_upcall (place.get untold.host).share_ref 0 (button, bit pressed, 0)
                >>= expected)
              untold
          else returns (tt, untold))
        ≡ returns (tt, changed b)
  tells true =
      ap (λ n. (schedule_upcall n 0 (button, bit pressed, 0) >>= expected) untold)
        (ap (λ (s : Buttons). s.share_ref) (place.get-put _ w.host) ∙ share)
      ∙ schedule_last 3 0 (button, bit pressed, 0) untold k d f p hk hd h hu
  tells false = ap (λ o. returns (tt, record untold { kernel_data = o })) hk

  -- Pressing or releasing a button that is there succeeds, stores the state and leaves every other button
  -- alone, and queues the application's upcall with the button and the state exactly when the button's
  -- interrupts are enabled and the state is a new one. The application has registered an upcall that is
  -- not null.
  pub set_pressed_tells :
      (set_pressed place button pressed w
        ≡ returns (ok tt, changed (original.interrupt_enabled && bool_ne original.pressed pressed)))
      × ((told : Bool) (j : ℕ)
          → get_button_state place j (changed told) ≡ (
              if button == j
              then some (record original { pressed = pressed })
              else get_button_state place j w))
  unfolding set_pressed get_button_state
  set_pressed_tells = (
    rw (there, set_pressed)
        (bind-returns (notify place button pressed original) (λ _. pure (ok tt)) {w = untold}
          (tells (original.interrupt_enabled && bool_ne original.pressed pressed))),
    λ told j.
        ap (λ (s : Buttons). get_elem? s.buttons j) (place.get-put _ w.host)
        ∙ get_elem?-set (place.get w.host).buttons button j original
            (record original { pressed = pressed }) there,
  )

abbrev state_of : Bool → Api.ButtonState
state_of true = Api.pressed
state_of false = Api.released

abbrev decode : CommandReturn → Result Api.ButtonState ErrorCode
decode r = map_ok Api.from (to_result success_u32 failure_code r)

-- What an application sees of a button, and of one that is not there.
abbrev pub reading : Option ButtonState → Result Api.ButtonState ErrorCode
reading none = err invalid
reading (some s) = ok (state_of s.pressed)

abbrev pub is_down : Option ButtonState → Bool
is_down none = false
is_down (some s) = s.pressed

abbrev pub is_up : Option ButtonState → Bool
is_up none = false
is_up (some s) = not s.pressed

from-bit : (b : Bool) → Api.from (bit b) ≡ state_of b
unfolding Api.from
from-bit true = refl
from-bit false = refl

bit-word : (b : Bool) → bit b < 2 ^ 32
bit-word true = omega arith
bit-word false = omega arith

decode-failure : decode (failure invalid) ≡ err invalid
unfolding to_result failure transmute as_u32
decode-failure = refl

equals_state :
    (b : Bool) → (Api.equals_pressed (state_of b) ≡ b) × (Api.equals_released (state_of b) ≡ not b)
equals_state true = (refl, refl)
equals_state false = (refl, refl)

module _ {H : Type 0} (env : Env H) (place : Place H Buttons) (w : World H) (k : KernelData)
    (d : DriverData) (button : ℕ)
    (is_buttons : (c a b : ℕ) (v : World H) → env.command d.driver c a b v ≡ command place c a b v)
    (hk : w.kernel_data ≡ some k) (he : k.expected_syscalls ≡ []) (hl : lookup 3 k.drivers ≡ some d)
    (small : length (place.get w.host).buttons < 2 ^ 32) (b32 : button < 2 ^ 32) where
  -- The world where the command is logged.
  abbrev logged : World H
  logged = record w { kernel_data = some (enter (SyscallLogEntry.command 3 3 button 0) k) }

  reads :
      (s : ButtonState)
      → get_button_state place button w ≡ some s
      → Api.read (fake_syscalls env) button w ≡ returns (ok (state_of s.pressed), logged)
  unfolding Api.read get_button_state command
  reads s e =
      command_gives env 3 3 button 0 w k (omega arith) (omega arith) b32 (omega arith) hk he d hl
        decode (CommandReturn.success_u32 (bit s.pressed)) (ok (state_of s.pressed)) logged
        (is_buttons 3 button 0 logged ∙ answers)
        (word-IsReturn (bit s.pressed) (bit-word s.pressed))
        (ap (map_ok Api.from) (word-result (bit s.pressed)) ∙ ap (λ x. ok x) (from-bit s.pressed))
    where
      answers :
          command place 3 button 0 logged
          ≡ returns (CommandReturn.success_u32 (bit s.pressed), logged)
      answers =
          let low = get_elem?-lt (place.get w.host).buttons button s e in
          ground (arith, low, small, e)

  fails :
      get_button_state place button w ≡ none
      → Api.read (fake_syscalls env) button w ≡ returns (err invalid, logged)
  unfolding Api.read get_button_state command
  fails e =
      command_gives env 3 3 button 0 w k (omega arith) (omega arith) b32 (omega arith) hk he d hl
        decode (failure invalid) (err invalid) logged (is_buttons 3 button 0 logged ∙ answers)
        (failure-IsReturn invalid (unfold as_u32 in omega arith)) decode-failure
    where
      answers : command place 3 button 0 logged ≡ returns (failure invalid, logged)
      answers =
          let high = get_elem?-ge (place.get w.host).buttons button e in
          ground (arith, high, small, e)

  -- The three calls, given what is there.
  abbrev Reads : Option ButtonState → Type 0
  Reads o =
      (Api.read (fake_syscalls env) button w ≡ returns (reading o, logged))
      × (Api.is_pressed (fake_syscalls env) button w ≡ returns (is_down o, logged))
      × (Api.is_released (fake_syscalls env) button w ≡ returns (is_up o, logged))

  -- Reading a button changes no more than the log. A button that is there is pressed or released, as its
  -- state says, and `is_pressed` and `is_released` say so; a button beyond the last one reads as `Invalid`,
  -- and is neither. No system call is expected, there are fewer than `2 ^ 32` buttons, and the button's
  -- number fits in 32 bits.
  pub button-Reads : Reads (get_button_state place button w)
  unfolding Api.is_pressed Api.is_released
  button-Reads = split (get_button_state place button w) refl
    where
      split : (o : Option ButtonState) → get_button_state place button w ≡ o → Reads o
      split none e = (
        fails e,
        bind-returns (Api.read (fake_syscalls env) button) _ (fails e),
        bind-returns (Api.read (fake_syscalls env) button) _ (fails e),
      )
      split (some s) e = (
        reads s e,
        bind-returns (Api.read (fake_syscalls env) button) _ (reads s e)
            ∙ ap (λ b. returns (b, logged)) (equals_state s.pressed).0,
        bind-returns (Api.read (fake_syscalls env) button) _ (reads s e)
            ∙ ap (λ b. returns (b, logged)) (equals_state s.pressed).1,
      )
