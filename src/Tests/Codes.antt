-- ===== src/Tests/Codes.antt =====
-- Tests of platform/src/error_code.rs, register.rs, command_return.rs and subscribe.rs.
use libtock_rs.Common.{◌≡◌, true, none, some, ok, err, arith}
use libtock_rs.Platform.ErrorCode.{as_u32, try_from, reserved, bad_r_val}
use libtock_rs.Platform.ErrorCode.Codes.{try_from-as_u32}
use libtock_rs.Platform.CommandReturn
use libtock_rs.Platform.CommandReturn.{CommandReturn, IsWords}
use libtock_rs.Platform.CommandReturn.Data
use libtock_rs.Platform.CommandReturn.Results
use libtock_rs.Platform.CommandReturn.Results.{ok-to_result, err-to_result}
use libtock_rs.Platform.Upcalls.{upcall_result, upcall_result_u32, upcall_result_2_u32}
use libtock_rs.Platform.Upcalls.Decode.{upcall_results_decode, IsDecoded}
use libtock_rs.Unittest
use libtock_rs.Unittest.CommandReturn.RoundTrip.{get-success}

try_from-as_u32_example : try_from (as_u32 (reserved 20)) ≡ ok (reserved 20)
try_from-as_u32_example = try_from-as_u32 (reserved 20) (omega arith, omega arith)

-- A success with the `u64` whose words are 7 and 1.
abbrev seven : CommandReturn
seven = record { return_variant = 131; r1 = 7; r2 = 1; r3 = 0 }

seven-IsWords : IsWords seven
seven-IsWords = record { word_1 = omega arith; word_2 = omega arith; word_3 = omega arith }

ok-to_result_example :
    (Results.ok? (Data.to_result Data.success_u32 Data.failure_code seven)
      ≡ CommandReturn.get_success_u32 seven)
    × (Results.ok? (Data.to_result Data.success_2_u32 Data.failure_code seven)
        ≡ CommandReturn.get_success_2_u32 seven)
    × (Results.ok? (Data.to_result Data.success_u64 Data.failure_code seven)
        ≡ CommandReturn.get_success_u64 seven)
    × (Results.ok? (Data.to_result Data.success_3_u32 Data.failure_code seven)
        ≡ CommandReturn.get_success_3_u32 seven)
    × (Results.ok? (Data.to_result Data.success_u32_u64 Data.failure_code seven)
        ≡ CommandReturn.get_success_u32_u64 seven)
ok-to_result_example = ok-to_result Data.failure_code seven seven-IsWords

err-to_result_example :
    (Data.to_result Data.success_u32 Data.failure_code seven ≡ err bad_r_val)
    × (Data.to_result Data.success_u32 Data.failure_u32 seven ≡ err (bad_r_val, 0))
    × (Data.to_result Data.success_u32 Data.failure_2_u32 seven ≡ err (bad_r_val, 0, 0))
    × (Data.to_result Data.success_u32 Data.failure_u64 seven ≡ err (bad_r_val, 0))
unfolding CommandReturn.get_failure CommandReturn.get_failure_u32 CommandReturn.get_failure_2_u32
    CommandReturn.get_failure_u64
err-to_result_example =
    err-to_result Data.success_u32 seven seven-IsWords (λ e. absurd (omega (arith, e)))

get-success_example :
    (CommandReturn.is_success Unittest.CommandReturn.success ≡ true)
    × (CommandReturn.get_success_u32 (Unittest.CommandReturn.success_u32 1) ≡ some 1)
    × (CommandReturn.get_success_2_u32 (Unittest.CommandReturn.success_2_u32 1 2) ≡ some (1, 2))
    × (CommandReturn.get_success_u64 (Unittest.CommandReturn.success_u64 5000000000)
        ≡ some 5000000000)
    × (CommandReturn.get_success_3_u32 (Unittest.CommandReturn.success_3_u32 1 2 3)
        ≡ some (1, 2, 3))
    × (CommandReturn.get_success_u32_u64 (Unittest.CommandReturn.success_u32_u64 1 5000000000)
        ≡ some (1, 5000000000))
get-success_example = get-success 1 2 3 5000000000 (omega arith)

upcall_results_decode_example :
    IsDecoded 9 tt (upcall_result none 9 1 2)
    × IsDecoded 9 1 (upcall_result_u32 none 9 1 2)
    × IsDecoded 9 (1, 2) (upcall_result_2_u32 none 9 1 2)
upcall_results_decode_example = upcall_results_decode 9 1 2 none none none
