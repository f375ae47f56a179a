-- ===== src/Platform/Syscalls.antt =====
-- platform/src/syscalls_impl.rs: the system calls of `Syscalls`, over any raw system calls.
--
-- A buffer is its address and length, an upcall the function and data registers. The configuration
-- is what the application runs when a call hands back an upcall or a buffer that is not null.
use libtock_rs.Common.{
  ℕ, ◌^◌, ◌&&◌, ◌==◌, ltb, if◌then◌else◌, Result, ok, err, returns, panics, exits, terminate, Run,
  ◌>>=◌, ◌>>◌, pure, panic,
}
use libtock_rs.Platform.Constants.{
  class_subscribe, class_command, class_allow_rw, class_allow_ro, class_memop, class_exit,
  exit_terminate_id, exit_restart_id, yield_no_wait_id, yield_wait_id,
}
use libtock_rs.Platform.ErrorCode.{ErrorCode, transmute, invalid}
use libtock_rs.Platform.ReturnVariant
use libtock_rs.Platform.Register.{as_u32, from_i32}
use libtock_rs.Platform.CommandReturn.{CommandReturn, new}
use libtock_rs.Platform.RawSyscalls.{RawSyscalls, YieldNoWaitReturn, Registers2, Registers4}

-- `subscribe::Config`, `allow_rw::Config` and `allow_ro::Config`.
pub record Config (W : Type 0) : Type 0 where
  pub returned_nonnull_upcall : ℕ → ℕ → Run W (Unit {0})
  pub returned_nonzero_rw : ℕ → ℕ → Run W (Unit {0})
  pub returned_nonzero_ro : ℕ → ℕ → Run W (Unit {0})

abbrev pub Fallible : Type 0 → Type 0 → Type 0
Fallible W A = Run W (Result A ErrorCode)

-- The end of `kernel_upcall`: an unwinding panic drops the `ExitOnDrop`, which terminates the process
-- with code 0.
unfoldable pub kernel_upcall : {W : Type 0} → Run W (Unit {0}) → Run W (Unit {0})
kernel_upcall upcall w = elim (upcall w) [
  | panics ↦ exits (terminate 0)
  | exits c ↦ exits c
  | returns r ↦ returns r
]

module _ {W : Type 0} where
  -- The check of the registers, and the call of the configuration.
  unfoldable pub subscribe_result : Config W → ℕ → ℕ → Registers4 → Fallible W (Unit {0})
  subscribe_result cfg driver_num subscribe_num (r0, r1, r2, r3) =
      if as_u32 r0 == ReturnVariant.failure_2_u32
      then pure (err (transmute (as_u32 r1)))
      else if r1 == 0
      then pure (ok tt)
      else do cfg.returned_nonnull_upcall driver_num subscribe_num; pure (ok tt)

  -- The check of the registers of an Allow call, given what the configuration runs.
  unfoldable pub allow_result : Run W (Unit {0}) → Registers4 → Fallible W (Unit {0})
  allow_result returned_nonzero_buffer (r0, r1, r2, r3) =
      if as_u32 r0 == ReturnVariant.failure_2_u32
      then pure (err (transmute (as_u32 r1)))
      else if r1 == 0 && r2 == 0
      then pure (ok tt)
      else do returned_nonzero_buffer; pure (ok tt)

unfoldable pub command_result : Registers4 → CommandReturn
unfolding new as_u32
command_result (r0, r1, r2, r3) = new (as_u32 r0) (as_u32 r1) (as_u32 r2) (as_u32 r3)

-- Memop calls that return nothing, and those that return an address.
abbrev pub memop_unit : Registers2 → Result (Unit {0}) ErrorCode
memop_unit (r0, r1) =
    if as_u32 r0 == ReturnVariant.failure then err (transmute (as_u32 r1)) else ok tt

abbrev pub memop_address : Registers2 → Result ℕ ErrorCode
memop_address (r0, r1) =
    if as_u32 r0 == ReturnVariant.failure then err (transmute (as_u32 r1)) else ok r1

module _ {W : Type 0} (raw : RawSyscalls W) where
  unfoldable pub yield_no_wait : Run W YieldNoWaitReturn
  yield_no_wait = raw.yield2 yield_no_wait_id

  unfoldable pub yield_wait : Run W (Unit {0})
  yield_wait = raw.yield1 yield_wait_id

  unfoldable pub subscribe : Config W → ℕ → ℕ → ℕ → ℕ → Fallible W (Unit {0})
  unfolding subscribe_result
  subscribe cfg driver_num subscribe_num upcall_fcn upcall_data = do
    r ← raw.syscall4 class_subscribe driver_num subscribe_num upcall_fcn upcall_data
    subscribe_result cfg driver_num subscribe_num r

  unfoldable pub unsubscribe : ℕ → ℕ → Run W (Unit {0})
  unsubscribe driver_num subscribe_num = do
    r ← raw.syscall4 class_subscribe driver_num subscribe_num 0 0
    pure tt

  unfoldable pub command : ℕ → ℕ → ℕ → ℕ → Run W CommandReturn
  unfolding command_result
  command driver_id command_id argument0 argument1 = do
    r ← raw.syscall4 class_command driver_id command_id argument0 argument1
    pure (command_result r)

  unfoldable pub allow_rw : Config W → ℕ → ℕ → ℕ → ℕ → Fallible W (Unit {0})
  unfolding allow_result
  allow_rw cfg driver_num buffer_num address len = do
    r ← raw.syscall4 class_allow_rw driver_num buffer_num address len
    allow_result (cfg.returned_nonzero_rw driver_num buffer_num) r

  unfoldable pub unallow_rw : ℕ → ℕ → Run W (Unit {0})
  unallow_rw driver_num buffer_num = do
    r ← raw.syscall4 class_allow_rw driver_num buffer_num 0 0
    pure tt

  unfoldable pub allow_ro : Config W → ℕ → ℕ → ℕ → ℕ → Fallible W (Unit {0})
  unfolding allow_result
  allow_ro cfg driver_num buffer_num address len = do
    r ← raw.syscall4 class_allow_ro driver_num buffer_num address len
    allow_result (cfg.returned_nonzero_ro driver_num buffer_num) r

  unfoldable pub unallow_ro : ℕ → ℕ → Run W (Unit {0})
  unallow_ro driver_num buffer_num = do
    r ← raw.syscall4 class_allow_ro driver_num buffer_num 0 0
    pure tt

  unfoldable pub memop_brk : ℕ → Fallible W (Unit {0})
  memop_brk addr = do r ← raw.syscall2 class_memop 0 addr; pure (memop_unit r)

  -- The increment is an `i32`; a `usize` has `bits` bits.
  unfoldable pub memop_sbrk : ℕ → ℕ → Fallible W ℕ
  memop_sbrk bits incr = do
    r ← raw.syscall2 class_memop 1 (from_i32 bits incr)
    pure (memop_address r)

  -- `i32::try_from(incr)` fails from 2 ^ 31 on.
  unfoldable pub memop_increment_brk : ℕ → ℕ → Fallible W ℕ
  unfolding memop_sbrk
  memop_increment_brk bits incr =
      if ltb incr (2 ^ 31) then memop_sbrk bits incr else pure (err invalid)

  unfoldable pub memop_app_ram_start : Fallible W ℕ
  memop_app_ram_start = do r ← raw.syscall1 class_memop 2; pure (memop_address r)

  unfoldable pub memop_debug_stack_start : ℕ → Fallible W (Unit {0})
  memop_debug_stack_start stack_top = do
    r ← raw.syscall2 class_memop 10 stack_top
    pure (memop_unit r)

  unfoldable pub memop_debug_heap_start : ℕ → Fallible W (Unit {0})
  memop_debug_heap_start initial_break = do
    r ← raw.syscall2 class_memop 11 initial_break
    pure (memop_unit r)

  -- An Exit call must not return: what is behind it, `unreachable_unchecked`, is a panic here.
  unfoldable pub exit_terminate : {A : Type 0} → ℕ → Run W A
  exit_terminate exit_code = do r ← raw.syscall2 class_exit exit_terminate_id exit_code; panic

  unfoldable pub exit_restart : {A : Type 0} → ℕ → Run W A
  exit_restart exit_code = do r ← raw.syscall2 class_exit exit_restart_id exit_code; panic
