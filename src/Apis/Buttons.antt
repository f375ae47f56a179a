-- ===== src/Apis/Buttons.antt =====
-- apis/interface/buttons/src/lib.rs, over any raw system calls.
use libtock_rs.Common.{
  ℕ, Bool, true, false, ◌==◌, if◌then◌else◌, map_ok, unwrap_or, Run, ◌>>=◌, pure,
}
use libtock_rs.Platform.RawSyscalls.{RawSyscalls}
use libtock_rs.Platform.CommandReturn.Data.{to_result, success_unit, success_u32, failure_code}
use libtock_rs.Platform.Syscalls.{Config, Fallible, command, subscribe, unsubscribe}

abbrev pub driver_num : ℕ
driver_num = 3

abbrev pub buttons_count : ℕ
buttons_count = 0

abbrev pub buttons_enable_interrupts : ℕ
buttons_enable_interrupts = 1

abbrev pub buttons_disable_interrupts : ℕ
buttons_disable_interrupts = 2

abbrev pub buttons_read : ℕ
buttons_read = 3

pub data ButtonState : Type 0 where
  pressed released : ButtonState

-- `impl From<u32> for ButtonState`
unfoldable pub from : ℕ → ButtonState
from value = if value == 0 then released else pressed

abbrev pub equals_pressed : ButtonState → Bool
equals_pressed pressed = true
equals_pressed released = false

abbrev pub equals_released : ButtonState → Bool
equals_released pressed = false
equals_released released = true

-- `impl Upcall for ButtonListener`, whose closure is `f`.
abbrev pub listener :
    {W : Type 0} → (ℕ → ButtonState → Run W (Unit {0})) → ℕ × ℕ × ℕ → Run W (Unit {0})
listener f args = f args.0 (from args.1)

module _ {W : Type 0} (raw : RawSyscalls W) where
  unfoldable pub count : Fallible W ℕ
  count = do
    r ← command raw driver_num buttons_count 0 0
    pure (to_result success_u32 failure_code r)

  unfoldable pub read : ℕ → Fallible W ButtonState
  unfolding from
  read button = do
    r ← command raw driver_num buttons_read button 0
    pure (map_ok from (to_result success_u32 failure_code r))

  unfoldable pub is_pressed : ℕ → Run W Bool
  unfolding read
  is_pressed button = do state ← read button; pure (unwrap_or (map_ok equals_pressed state) false)

  unfoldable pub is_released : ℕ → Run W Bool
  unfolding read
  is_released button = do state ← read button; pure (unwrap_or (map_ok equals_released state) false)

  unfoldable pub enable_interrupts : ℕ → Fallible W (Unit {0})
  enable_interrupts button = do
    r ← command raw driver_num buttons_enable_interrupts button 0
    pure (to_result success_unit failure_code r)

  unfoldable pub disable_interrupts : ℕ → Fallible W (Unit {0})
  disable_interrupts button = do
    r ← command raw driver_num buttons_disable_interrupts button 0
    pure (to_result success_unit failure_code r)

  -- The listener is its function and its address.
  unfoldable pub register_listener : Config W → ℕ → ℕ → Fallible W (Unit {0})
  register_listener cfg fcn payload = subscribe raw cfg driver_num 0 fcn payload

  unfoldable pub unregister_listener : Run W (Unit {0})
  unregister_listener = unsubscribe raw driver_num 0
