-- ===== src/Apis/LowLevelDebug.antt =====
-- apis/kernel/low_level_debug/src/lib.rs, over any raw system calls.
use libtock_rs.Common.{ℕ, Bool, Run, ◌>>=◌, pure}
use libtock_rs.Platform.RawSyscalls.{RawSyscalls}
use libtock_rs.Platform.CommandReturn.{is_success}
use libtock_rs.Platform.Syscalls.{command}

abbrev pub driver_num : ℕ
driver_num = 8

abbrev pub exists_command : ℕ
exists_command = 0

abbrev pub print_alert_code_command : ℕ
print_alert_code_command = 1

abbrev pub print_1_command : ℕ
print_1_command = 2

abbrev pub print_2_command : ℕ
print_2_command = 3

pub data AlertCode : Type 0 where
  panic wrong_location : AlertCode

-- `code as u32`
abbrev pub code_number : AlertCode → ℕ
code_number panic = 1
code_number wrong_location = 2

module _ {W : Type 0} (raw : RawSyscalls W) where
  unfoldable pub exists : Run W Bool
  unfolding is_success
  exists = do r ← command raw driver_num exists_command 0 0; pure (is_success r)

  unfoldable pub print_alert_code : AlertCode → Run W (Unit {0})
  print_alert_code code = do
    r ← command raw driver_num print_alert_code_command (code_number code) 0
    pure tt

  unfoldable pub print_1 : ℕ → Run W (Unit {0})
  print_1 x = do r ← command raw driver_num print_1_command x 0; pure tt

  unfoldable pub print_2 : ℕ → ℕ → Run W (Unit {0})
  print_2 x y = do r ← command raw driver_num print_2_command x y; pure tt
