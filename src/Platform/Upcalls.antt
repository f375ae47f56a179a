-- ===== src/Platform/Upcalls.antt =====
-- platform/src/subscribe.rs: the implementations of `Upcall` that store their arguments in a `Cell`.
-- Each function is what the cell holds after the upcall, from what it held before and the arguments.
pub mod Decode
use libtock_rs.Common.{ℕ, Bool, true, Option, none, some, Result, ok, err, ◌==◌, if◌then◌else◌}
use libtock_rs.Platform.ErrorCode.{ErrorCode, NotAnErrorCode, try_from, fail}

-- `unwrap_or(ErrorCode::Fail)`
abbrev pub unwrap_or_fail : Result ErrorCode NotAnErrorCode → ErrorCode
unwrap_or_fail (ok e) = e
unwrap_or_fail (err _) = fail

-- `impl Upcall for Cell<bool>`
unfoldable pub upcall_bool : Bool → ℕ → ℕ → ℕ → Bool
upcall_bool cell arg0 arg1 arg2 = true

-- `impl Upcall for Cell<Option<()>>`
unfoldable pub upcall_unit : Option (Unit {0}) → ℕ → ℕ → ℕ → Option (Unit {0})
upcall_unit cell arg0 arg1 arg2 = some tt

-- `impl Upcall for Cell<Option<(u32,)>>`
unfoldable pub upcall_u32 : Option ℕ → ℕ → ℕ → ℕ → Option ℕ
upcall_u32 cell arg0 arg1 arg2 = some arg0

-- `impl Upcall for Cell<Option<(u32, u32)>>`
unfoldable pub upcall_2_u32 : Option (ℕ × ℕ) → ℕ → ℕ → ℕ → Option (ℕ × ℕ)
upcall_2_u32 cell arg0 arg1 arg2 = some (arg0, arg1)

-- `impl Upcall for Cell<Option<(u32, u32, u32)>>`
unfoldable pub upcall_3_u32 : Option (ℕ × ℕ × ℕ) → ℕ → ℕ → ℕ → Option (ℕ × ℕ × ℕ)
upcall_3_u32 cell arg0 arg1 arg2 = some (arg0, arg1, arg2)

-- `impl Upcall for Cell<Option<Result<(), ErrorCode>>>`
unfoldable pub upcall_result :
    Option (Result (Unit {0}) ErrorCode) → ℕ → ℕ → ℕ → Option (Result (Unit {0}) ErrorCode)
upcall_result cell arg0 arg1 arg2 =
    some (if arg0 == 0 then ok tt else err (unwrap_or_fail (try_from arg0)))

-- `impl Upcall for Cell<Option<Result<(u32,), ErrorCode>>>`
unfoldable pub upcall_result_u32 :
    Option (Result ℕ ErrorCode) → ℕ → ℕ → ℕ → Option (Result ℕ ErrorCode)
upcall_result_u32 cell arg0 arg1 arg2 =
    some (if arg0 == 0 then ok arg1 else err (unwrap_or_fail (try_from arg0)))

-- `impl Upcall for Cell<Option<Result<(u32, u32), ErrorCode>>>`
unfoldable pub upcall_result_2_u32 :
    Option (Result (ℕ × ℕ) ErrorCode) → ℕ → ℕ → ℕ → Option (Result (ℕ × ℕ) ErrorCode)
upcall_result_2_u32 cell arg0 arg1 arg2 =
    some (if arg0 == 0 then ok (arg1, arg2) else err (unwrap_or_fail (try_from arg0)))
