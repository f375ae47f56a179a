-- ===== src/Apis/KeyValue.antt =====
-- apis/storage/key_value/src/lib.rs, over any raw system calls. A slice is its address and its length,
-- the upcall of a cell its function and its address.
use libtock_rs.Common.{ℕ, Bool, Option, Result, Run, ◌>>=◌, ◌>>◌, pure, returns}
use libtock_rs.Platform.ErrorCode.{ErrorCode}
use libtock_rs.Platform.RawSyscalls.{RawSyscalls}
use libtock_rs.Platform.CommandReturn.{is_success}
use libtock_rs.Platform.CommandReturn.Data.{to_result, success_unit, failure_code}
use libtock_rs.Platform.Syscalls.{
  Config, Fallible, command, subscribe, unsubscribe, allow_ro, allow_rw, unallow_ro, unallow_rw,
}
use libtock_rs.Platform.Share.{scope}
use libtock_rs.Platform.AsyncCall.{Place}
use libtock_rs.Platform.Upcalls.{upcall_result, upcall_result_u32}
use libtock_rs.Apis.Blocking.{Blocking, try_then, new_cell, yield_until_called}

abbrev pub driver_num : ℕ
driver_num = 327683

abbrev pub driver_check : ℕ
driver_check = 0

abbrev pub get_command : ℕ
get_command = 1

abbrev pub set_command : ℕ
set_command = 2

abbrev pub delete_command : ℕ
delete_command = 3

abbrev pub add_command : ℕ
add_command = 4

abbrev pub update_command : ℕ
update_command = 5

abbrev pub callback : ℕ
callback = 0

abbrev pub key_buffer : ℕ
key_buffer = 0

abbrev pub value_write : ℕ
value_write = 1

abbrev pub value_read : ℕ
value_read = 0

-- The upcall of `insert` and `delete`, and that of `get`, where `called` is the cell.
unfoldable pub unit_upcall :
    {W : Type 0} → Place W (Option (Result (Unit {0}) ErrorCode)) → ℕ × ℕ × ℕ → Run W (Unit {0})
unfolding upcall_result
unit_upcall called (arg0, arg1, arg2) w =
    returns (tt, called.put (upcall_result (called.get w) arg0 arg1 arg2) w)

unfoldable pub length_upcall :
    {W : Type 0} → Place W (Option (Result ℕ ErrorCode)) → ℕ × ℕ × ℕ → Run W (Unit {0})
unfolding upcall_result_u32
length_upcall called (arg0, arg1, arg2) w =
    returns (tt, called.put (upcall_result_u32 (called.get w) arg0 arg1 arg2) w)

module _ {W : Type 0} (raw : RawSyscalls W) where
  unfoldable pub exists : Run W Bool
  unfolding is_success
  exists = do r ← command raw driver_num driver_check 0 0; pure (is_success r)

  abbrev pub command_unit : ℕ → Fallible W (Unit {0})
  command_unit command_num = do
    r ← command raw driver_num command_num 0 0
    pure (to_result success_unit failure_code r)

  module _ (cfg : Config W) (fcn payload fuel : ℕ) where
    -- What follows the buffers in each closure: the subscription, the command and the loop.
    unfoldable pub run_command :
        {A : Type 0} → Place W (Option (Result A ErrorCode)) → ℕ → Blocking W (Result A ErrorCode)
    unfolding yield_until_called
    run_command called command_num = do
      subscribed ← subscribe raw cfg driver_num callback fcn payload
      try_then subscribed (do
        started ← command_unit command_num
        try_then started (yield_until_called called raw fuel))

    unfoldable pub get :
        Place W (Option (Result ℕ ErrorCode))
        → (key_address key_len value_address value_len : ℕ) → Blocking W (Result ℕ ErrorCode)
    unfolding scope run_command
    get called key_address key_len value_address value_len = do
      new_cell called
      scope
          (do
            unallow_ro raw driver_num key_buffer
            unallow_rw raw driver_num value_read
            unsubscribe raw driver_num callback)
          (do
            allowed ← allow_ro raw cfg driver_num key_buffer key_address key_len
            try_then allowed (do
              shared ← allow_rw raw cfg driver_num value_read value_address value_len
              try_then shared (run_command called get_command)))

    module _ (called : Place W (Option (Result (Unit {0}) ErrorCode))) where
      unfoldable pub insert :
          ℕ
          → (key_address key_len value_address value_len : ℕ)
          → Blocking W (Result (Unit {0}) ErrorCode)
      unfolding scope run_command
      insert command_num key_address key_len value_address value_len = do
        new_cell called
        scope
            (do
              unallow_ro raw driver_num key_buffer
              unallow_ro raw driver_num value_write
              unsubscribe raw driver_num callback)
            (do
              allowed ← allow_ro raw cfg driver_num key_buffer key_address key_len
              try_then allowed (do
                shared ← allow_ro raw cfg driver_num value_write value_address value_len
                try_then shared (run_command called command_num)))

      unfoldable pub set :
          (key_address key_len value_address value_len : ℕ)
          → Blocking W (Result (Unit {0}) ErrorCode)
      unfolding insert
      set = insert set_command

      unfoldable pub add :
          (key_address key_len value_address value_len : ℕ)
          → Blocking W (Result (Unit {0}) ErrorCode)
      unfolding insert
      add = insert add_command

      unfoldable pub update :
          (key_address key_len value_address value_len : ℕ)
          → Blocking W (Result (Unit {0}) ErrorCode)
      unfolding insert
      update = insert update_command

      unfoldable pub delete : (key_address key_len : ℕ) → Blocking W (Result (Unit {0}) ErrorCode)
      unfolding scope run_command
      delete key_address key_len = do
        new_cell called
        scope (do unallow_ro raw driver_num key_buffer; unsubscribe raw driver_num callback)
            (do
              allowed ← allow_ro raw cfg driver_num key_buffer key_address key_len
              try_then allowed (run_command called delete_command))
