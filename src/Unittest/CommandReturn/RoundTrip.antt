-- ===== src/Unittest/CommandReturn/RoundTrip.antt =====
-- The constructors of unittest/src/command_return.rs and the getters of
-- platform/src/command_return.rs are inverse.
use libtock_rs.Common.{ℕ, ◌<◌, ◌^◌, ◌≡◌, some, arith, true}
use libtock_rs.Platform.ErrorCode.{ErrorCode, IsErrorCode}
use libtock_rs.Platform.ErrorCode.Codes.{transmute-as_u32}
use libtock_rs.Platform.CommandReturn.{
  add_high, get_failure, get_failure_u32, get_failure_2_u32, get_failure_u64, get_success_u32,
  get_success_2_u32, get_success_u64, get_success_3_u32, get_success_u32_u64, is_success,
}
use libtock_rs.Unittest.CommandReturn.{
  failure, failure_u32, failure_2_u32, failure_u64, success, success_u32, success_2_u32,
  success_u64, success_3_u32, success_u32_u64,
}

-- A failure that is built from an error code and values gives these back; a `u64` travels in two
-- registers.
pub get-failure :
    (e : ErrorCode) (v w u : ℕ)
    → IsErrorCode e
    → u < 2 ^ 64
    → (get_failure (failure e) ≡ some e)
      × (get_failure_u32 (failure_u32 e v) ≡ some (e, v))
      × (get_failure_2_u32 (failure_2_u32 e v w) ≡ some (e, v, w))
      × (get_failure_u64 (failure_u64 e u) ≡ some (e, u))
unfolding failure failure_u32 failure_2_u32 failure_u64 get_failure get_failure_u32
    get_failure_2_u32 get_failure_u64 add_high
get-failure e v w u h k = (
  ground (arith, transmute-as_u32 e h),
  ground (arith, transmute-as_u32 e h),
  ground (arith, transmute-as_u32 e h),
  ground (arith, transmute-as_u32 e h),
)

-- A success that is built from values gives these back.
pub get-success :
    (v w x u : ℕ)
    → u < 2 ^ 64
    → (is_success success ≡ true)
      × (get_success_u32 (success_u32 v) ≡ some v)
      × (get_success_2_u32 (success_2_u32 v w) ≡ some (v, w))
      × (get_success_u64 (success_u64 u) ≡ some u)
      × (get_success_3_u32 (success_3_u32 v w x) ≡ some (v, w, x))
      × (get_success_u32_u64 (success_u32_u64 v u) ≡ some (v, u))
unfolding success success_u32 success_2_u32 success_u64 success_3_u32 success_u32_u64 is_success
    get_success_u32 get_success_2_u32 get_success_u64 get_success_3_u32 get_success_u32_u64 add_high
get-success v w x u k =
    (ground arith, ground arith, ground arith, ground arith, ground arith, ground arith)
