-- ===== src/Platform/Constants.antt =====
-- platform/src/constants.rs: the numbers of the system call classes, of yield and of exit.
use libtock_rs.Common.{ℕ}

-- `exit_id`
abbrev pub exit_terminate_id : ℕ
exit_terminate_id = 0

abbrev pub exit_restart_id : ℕ
exit_restart_id = 1

-- `syscall_class`
abbrev pub class_subscribe : ℕ
class_subscribe = 1

abbrev pub class_command : ℕ
class_command = 2

abbrev pub class_allow_rw : ℕ
class_allow_rw = 3

abbrev pub class_allow_ro : ℕ
class_allow_ro = 4

abbrev pub class_memop : ℕ
class_memop = 5

abbrev pub class_exit : ℕ
class_exit = 6

-- `yield_id`
abbrev pub yield_no_wait_id : ℕ
yield_no_wait_id = 0

abbrev pub yield_wait_id : ℕ
yield_wait_id = 1
