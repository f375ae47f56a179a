-- ===== src/Unittest/Syscalls/Allow.antt =====
-- unittest/src/fake/syscalls/allow_ro_impl.rs and allow_rw_impl.rs
use libtock_rs.Common.{
  ℕ, ◌&&◌, Option, none, some, lookup, ◌==◌, if◌then◌else◌, Result, ok, err, Outcome, returns,
  panics, exits,
}
use libtock_rs.Platform.ErrorCode.{ErrorCode, no_device}
use libtock_rs.Platform.ReturnVariant
use libtock_rs.Unittest.AllowDb.{
  AllowBuffer, insert_ro_buffer, insert_rw_buffer, remove_ro_buffer, remove_rw_buffer,
}
use libtock_rs.Unittest.KernelData.{KernelData, ExpectedSyscall, SyscallLogEntry}
use libtock_rs.Unittest.World.{M, Env, ◌>>=◌, pure, with_kernel_data, expect_u32}
use libtock_rs.Unittest.Syscalls.Enter.{Registers4, enter, front, failure_registers}

-- What a driver's method returns: the buffer that it gives back, and the error, if any.
abbrev pub buffer_of : Result AllowBuffer (AllowBuffer × ErrorCode) → AllowBuffer
buffer_of (ok buffer) = buffer
buffer_of (err (buffer, error_code)) = buffer

abbrev pub error_of : Result AllowBuffer (AllowBuffer × ErrorCode) → Option ErrorCode
error_of (ok buffer) = none
error_of (err (buffer, error_code)) = some error_code

-- The last match: the registers, of which `r3` echoes the length on success.
abbrev pub allow_registers : Option ErrorCode → ℕ → ℕ → ℕ → Registers4
allow_registers none address_out len_out len =
    (ReturnVariant.success_2_u32, address_out, len_out, len)
allow_registers (some error_code) address_out len_out len =
    failure_registers error_code address_out len_out

-- The match on the expected system call, which gives the error to return.
unfoldable pub expect_allow_ro : ℕ → ℕ → Option ExpectedSyscall → Outcome (Option ErrorCode)
expect_allow_ro driver_num buffer_num none = returns none
expect_allow_ro driver_num buffer_num (some (ExpectedSyscall.allow_ro d b return_error)) =
    if driver_num == d && buffer_num == b then returns return_error else panics
expect_allow_ro driver_num buffer_num (some _) = panics

-- The first closure: the error to return, or the driver and the buffer, which is entered in the
-- database. It panics if the buffer overlaps one that is active.
unfoldable pub allow_ro_enter :
    ℕ → ℕ → ℕ → ℕ → KernelData → Outcome (Result (ℕ × AllowBuffer) ErrorCode × KernelData)
unfolding expect_allow_ro
allow_ro_enter driver_num buffer_num address len k =
    let k' = enter (SyscallLogEntry.allow_ro driver_num buffer_num len) k in
    elim (expect_allow_ro driver_num buffer_num (front k.expected_syscalls)) [
      | panics ↦ panics
      | exits c ↦ exits c
      | returns return_error ↦ elim return_error [
        | some error_code ↦ returns (err error_code, k')
        | none ↦ elim (lookup driver_num k.drivers) [
          | none ↦ returns (err no_device, k')
          | some d ↦ elim (insert_ro_buffer address len k.allow_db) [
            | err overlap ↦ panics
            | ok (buffer, db) ↦ returns (ok (d.driver, buffer), record k' { allow_db = db })
          ]
        ]
      ]
    ]

-- The second closure: takes the buffer that the driver gave back out of the database.
unfoldable pub allow_ro_leave : AllowBuffer → KernelData → Outcome ((ℕ × ℕ) × KernelData)
allow_ro_leave buffer k =
    let (registers, db) = remove_ro_buffer buffer k.allow_db in
    returns (registers, record k { allow_db = db })

-- What follows the first closure.
unfoldable pub allow_ro_finish :
    {H : Type 0} → Env H → ℕ → ℕ → ℕ → Result (ℕ × AllowBuffer) ErrorCode → M H Registers4
unfolding allow_ro_leave
allow_ro_finish env buffer_num address len (err error_code) =
    pure (failure_registers error_code address len)
allow_ro_finish env buffer_num address len (ok (driver, buffer)) = do
  result ← env.allow_readonly driver buffer_num buffer
  out ← with_kernel_data (allow_ro_leave (buffer_of result))
  pure (allow_registers (error_of result) out.0 out.1 len)

unfoldable pub allow_ro : {H : Type 0} → Env H → ℕ → ℕ → ℕ → ℕ → M H Registers4
unfolding allow_ro_enter allow_ro_finish
allow_ro env r0 r1 address len = do
  driver_num ← expect_u32 r0
  buffer_num ← expect_u32 r1
  found ← with_kernel_data (allow_ro_enter driver_num buffer_num address len)
  allow_ro_finish env buffer_num address len found

-- The match on the expected system call, which gives the error to return.
unfoldable pub expect_allow_rw : ℕ → ℕ → Option ExpectedSyscall → Outcome (Option ErrorCode)
expect_allow_rw driver_num buffer_num none = returns none
expect_allow_rw driver_num buffer_num (some (ExpectedSyscall.allow_rw d b return_error)) =
    if driver_num == d && buffer_num == b then returns return_error else panics
expect_allow_rw driver_num buffer_num (some _) = panics

-- The first closure: the error to return, or the driver and the buffer, which is entered in the
-- database. It panics if the buffer overlaps one that is active.
unfoldable pub allow_rw_enter :
    ℕ → ℕ → ℕ → ℕ → KernelData → Outcome (Result (ℕ × AllowBuffer) ErrorCode × KernelData)
unfolding expect_allow_rw
allow_rw_enter driver_num buffer_num address len k =
    let k' = enter (SyscallLogEntry.allow_rw driver_num buffer_num len) k in
    elim (expect_allow_rw driver_num buffer_num (front k.expected_syscalls)) [
      | panics ↦ panics
      | exits c ↦ exits c
      | returns return_error ↦ elim return_error [
        | some error_code ↦ returns (err error_code, k')
        | none ↦ elim (lookup driver_num k.drivers) [
          | none ↦ returns (err no_device, k')
          | some d ↦ elim (insert_rw_buffer address len k.allow_db) [
            | err overlap ↦ panics
            | ok (buffer, db) ↦ returns (ok (d.driver, buffer), record k' { allow_db = db })
          ]
        ]
      ]
    ]

-- The second closure: takes the buffer that the driver gave back out of the database.
unfoldable pub allow_rw_leave : AllowBuffer → KernelData → Outcome ((ℕ × ℕ) × KernelData)
allow_rw_leave buffer k =
    let (registers, db) = remove_rw_buffer buffer k.allow_db in
    returns (registers, record k { allow_db = db })

-- What follows the first closure.
unfoldable pub allow_rw_finish :
    {H : Type 0} → Env H → ℕ → ℕ → ℕ → Result (ℕ × AllowBuffer) ErrorCode → M H Registers4
unfolding allow_rw_leave
allow_rw_finish env buffer_num address len (err error_code) =
    pure (failure_registers error_code address len)
allow_rw_finish env buffer_num address len (ok (driver, buffer)) = do
  result ← env.allow_readwrite driver buffer_num buffer
  out ← with_kernel_data (allow_rw_leave (buffer_of result))
  pure (allow_registers (error_of result) out.0 out.1 len)

unfoldable pub allow_rw : {H : Type 0} → Env H → ℕ → ℕ → ℕ → ℕ → M H Registers4
unfolding allow_rw_enter allow_rw_finish
allow_rw env r0 r1 address len = do
  driver_num ← expect_u32 r0
  buffer_num ← expect_u32 r1
  found ← with_kernel_data (allow_rw_enter driver_num buffer_num address len)
  allow_rw_finish env buffer_num address len found
