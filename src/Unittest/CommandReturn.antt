-- ===== src/Unittest/CommandReturn.antt =====
-- unittest/src/command_return.rs: the safe constructors of a `CommandReturn`.
pub mod RoundTrip
use libtock_rs.Common.{ℕ, ◌/◌, ◌%◌, ◌^◌}
use libtock_rs.Platform.ErrorCode.{ErrorCode, as_u32}
use libtock_rs.Platform.ReturnVariant
use libtock_rs.Platform.CommandReturn.{CommandReturn, new}

-- `value as u32` and `(value >> 32) as u32` of a `u64`.
abbrev pub low_word : ℕ → ℕ
low_word value = value % 2 ^ 32

abbrev pub high_word : ℕ → ℕ
high_word value = value / 2 ^ 32 % 2 ^ 32

unfoldable pub failure : ErrorCode → CommandReturn
unfolding new
failure error_code = new ReturnVariant.failure (as_u32 error_code) 0 0

unfoldable pub failure_u32 : ErrorCode → ℕ → CommandReturn
unfolding new
failure_u32 error_code value = new ReturnVariant.failure_u32 (as_u32 error_code) value 0

unfoldable pub failure_2_u32 : ErrorCode → ℕ → ℕ → CommandReturn
unfolding new
failure_2_u32 error_code value0 value1 =
    new ReturnVariant.failure_2_u32 (as_u32 error_code) value0 value1

unfoldable pub failure_u64 : ErrorCode → ℕ → CommandReturn
unfolding new
failure_u64 error_code value =
    new ReturnVariant.failure_u64 (as_u32 error_code) (low_word value) (high_word value)

unfoldable pub success : CommandReturn
unfolding new
success = new ReturnVariant.success 0 0 0

unfoldable pub success_u32 : ℕ → CommandReturn
unfolding new
success_u32 value = new ReturnVariant.success_u32 value 0 0

unfoldable pub success_2_u32 : ℕ → ℕ → CommandReturn
unfolding new
success_2_u32 value0 value1 = new ReturnVariant.success_2_u32 value0 value1 0

unfoldable pub success_u64 : ℕ → CommandReturn
unfolding new
success_u64 value = new ReturnVariant.success_u64 (low_word value) (high_word value) 0

unfoldable pub success_3_u32 : ℕ → ℕ → ℕ → CommandReturn
unfolding new
success_3_u32 value0 value1 value2 = new ReturnVariant.success_3_u32 value0 value1 value2

unfoldable pub success_u32_u64 : ℕ → ℕ → CommandReturn
unfolding new
success_u32_u64 value0 value1 =
    new ReturnVariant.success_u32_u64 value0 (low_word value1) (high_word value1)
