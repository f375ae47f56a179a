-- ===== src/Unittest/KernelData.antt =====
-- The state of the fake kernel: unittest/src/kernel_data.rs, upcall.rs, expected_syscall.rs,
-- syscall_log.rs and driver_info.rs.
--
-- A register, a pointer and a function pointer are numbers. A driver (`Rc<dyn SyscallDriver>`) is
-- the number of the object; what the object does is part of `World.Env`. A `HashMap` is an
-- association list, a `VecDeque` a list with its front first, a `Vec` a list with its start first.
use libtock_rs.Common.{ℕ, Bool, true, false, ◌&&◌, Option, none, some, List, ◌==◌}
use libtock_rs.Platform.ErrorCode.{ErrorCode}
use libtock_rs.Platform.CommandReturn.{CommandReturn}
use libtock_rs.Platform.RawSyscalls.{YieldNoWaitReturn}
use libtock_rs.Unittest.AllowDb.{Buffers}

pub record DriverInfo : Type 0 where
  pub driver_num : ℕ
  pub upcall_count : ℕ

-- `fn_pointer` is `none` for the null upcall.
pub record Upcall : Type 0 where
  pub fn_pointer : Option ℕ
  pub payload : ℕ

unfoldable pub is_null : Upcall → Bool
is_null u = elim u.fn_pointer [ none ↦ true | some _ ↦ false ]

pub record UpcallId : Type 0 where
  pub driver_num : ℕ
  pub subscribe_num : ℕ

-- `==` of `UpcallId`
abbrev pub id_eq : UpcallId → UpcallId → Bool
id_eq i j = (i.driver_num == j.driver_num) && (i.subscribe_num == j.subscribe_num)

abbrev pub Args : Type 0
Args = ℕ × ℕ × ℕ

pub record UpcallQueueEntry : Type 0 where
  pub args : Args
  pub id : UpcallId
  pub upcall : Upcall

pub data ExpectedSyscall : Type 0 where
  yield_no_wait : (override_return : Option YieldNoWaitReturn) → ExpectedSyscall
  yield_wait : (skip_upcall : Bool) → ExpectedSyscall
  subscribe : (driver_num subscribe_num : ℕ) (skip_with_error : Option ErrorCode) → ExpectedSyscall
  command :
      (driver_id command_id argument0 argument1 : ℕ) (override_return : Option CommandReturn)
      → ExpectedSyscall
  allow_ro : (driver_num buffer_num : ℕ) (return_error : Option ErrorCode) → ExpectedSyscall
  allow_rw : (driver_num buffer_num : ℕ) (return_error : Option ErrorCode) → ExpectedSyscall
  memop : (memop_num argument0 : ℕ) (return_error : Option ErrorCode) → ExpectedSyscall

pub data SyscallLogEntry : Type 0 where
  yield_no_wait yield_wait : SyscallLogEntry
  subscribe : (driver_num subscribe_num : ℕ) → SyscallLogEntry
  command : (driver_id command_id argument0 argument1 : ℕ) → SyscallLogEntry
  allow_ro : (driver_num buffer_num len : ℕ) → SyscallLogEntry
  allow_rw : (driver_num buffer_num len : ℕ) → SyscallLogEntry
  memop : (memop_num argument0 : ℕ) → SyscallLogEntry

pub record DriverData : Type 0 where
  pub driver : ℕ
  pub num_upcalls : ℕ
  pub upcalls : List (ℕ × Upcall)

pub record KernelData : Type 0 where
  pub allow_db : Buffers
  pub create_location : ℕ
  pub drivers : List (ℕ × DriverData)
  pub expected_syscalls : List ExpectedSyscall
  pub syscall_log : List SyscallLogEntry
  pub upcall_queue : List UpcallQueueEntry
  pub memory_break : ℕ
