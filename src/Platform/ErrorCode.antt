-- ===== src/Platform/ErrorCode.antt =====
-- platform/src/error_code.rs: the error codes of TRD 104 and their numbers.
--
-- The variants `N00014` to `N01023`, which are reserved for future use and differ only in their
-- number, are the one constructor `reserved`, with the number as its argument. `IsErrorCode` says
-- that a value is one of the 1024 variants of the enum.
pub mod Codes
use Prim.Native.String.{String}
use libtock_rs.Common.{ℕ, ◌≤◌, ◌&&◌, Option, none, some, ◌==◌, leb, if◌then◌else◌, Result, ok, err}

pub data ErrorCode : Type 0 where
  fail busy already off reserve invalid size cancel : ErrorCode
  no_mem no_support no_device uninstalled no_ack bad_r_val : ErrorCode
  reserved : ℕ → ErrorCode

abbrev pub IsErrorCode : ErrorCode → Type 0
IsErrorCode (reserved n) = (14 ≤ n) × (n ≤ 1023)
IsErrorCode _ = Unit

-- `e as u32`, the discriminant.
unfoldable pub as_u32 : ErrorCode → ℕ
as_u32 fail = 1
as_u32 busy = 2
as_u32 already = 3
as_u32 off = 4
as_u32 reserve = 5
as_u32 invalid = 6
as_u32 size = 7
as_u32 cancel = 8
as_u32 no_mem = 9
as_u32 no_support = 10
as_u32 no_device = 11
as_u32 uninstalled = 12
as_u32 no_ack = 13
as_u32 bad_r_val = 1024
as_u32 (reserved n) = n

-- `transmute::<u32, ErrorCode>(value)`: the variant whose discriminant is `value`. On a value that
-- no variant has, which is undefined behaviour in the source, it is no error code.
unfoldable pub transmute : ℕ → ErrorCode
transmute value =
    if value == 1
    then fail
    else if value == 2
    then busy
    else if value == 3
    then already
    else if value == 4
    then off
    else if value == 5
    then reserve
    else if value == 6
    then invalid
    else if value == 7
    then size
    else if value == 8
    then cancel
    else if value == 9
    then no_mem
    else if value == 10
    then no_support
    else if value == 11
    then no_device
    else if value == 12
    then uninstalled
    else if value == 13
    then no_ack
    else if value == 1024
    then bad_r_val
    else reserved value

pub data NotAnErrorCode : Type 0 where
  not_an_error_code : NotAnErrorCode

unfoldable pub try_from : ℕ → Result ErrorCode NotAnErrorCode
try_from value =
    if leb 1 value && leb value 1024 then ok (transmute value) else err not_an_error_code

unfoldable pub as_str : ErrorCode → Option String
as_str fail = some "FAIL"
as_str busy = some "BUSY"
as_str already = some "ALREADY"
as_str off = some "OFF"
as_str reserve = some "RESERVE"
as_str invalid = some "INVALID"
as_str size = some "SIZE"
as_str cancel = some "CANCEL"
as_str no_mem = some "NOMEM"
as_str no_support = some "NOSUPPORT"
as_str no_device = some "NODEVICE"
as_str uninstalled = some "UNINSTALLED"
as_str no_ack = some "NOACK"
as_str bad_r_val = some "BADRVAL"
as_str (reserved n) = none
