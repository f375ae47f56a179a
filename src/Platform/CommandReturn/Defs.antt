-- ===== src/Platform/CommandReturn/Defs.antt =====
-- platform/src/command_return.rs: `CommandReturn`, its tests and its getters.
use libtock_rs.Common.{
  ℕ, ◌+◌, ◌*◌, ◌%◌, ◌^◌, ◌≤◌, ◌<◌, Bool, Option, none, some, ◌==◌, if◌then◌else◌,
}
use libtock_rs.Platform.ErrorCode.{ErrorCode, transmute}
use libtock_rs.Platform.ReturnVariant
use libtock_rs.Platform.ReturnVariant.{ReturnVariant}

pub record CommandReturn : Type 0 where
  pub return_variant : ReturnVariant
  pub r1 : ℕ
  pub r2 : ℕ
  pub r3 : ℕ

-- `lo as u64 + ((hi as u64) << 32)`
unfoldable pub add_high : ℕ → ℕ → ℕ
add_high lo hi = (lo + hi * 2 ^ 32 % 2 ^ 64) % 2 ^ 64

-- `CommandReturn::new`
unfoldable pub new : ReturnVariant → ℕ → ℕ → ℕ → CommandReturn
new variant r1 r2 r3 = record { return_variant = variant; r1 = r1; r2 = r2; r3 = r3 }

unfoldable pub is_failure : CommandReturn → Bool
is_failure c = c.return_variant == ReturnVariant.failure

unfoldable pub is_failure_u32 : CommandReturn → Bool
is_failure_u32 c = c.return_variant == ReturnVariant.failure_u32

unfoldable pub is_failure_2_u32 : CommandReturn → Bool
is_failure_2_u32 c = c.return_variant == ReturnVariant.failure_2_u32

unfoldable pub is_failure_u64 : CommandReturn → Bool
is_failure_u64 c = c.return_variant == ReturnVariant.failure_u64

unfoldable pub is_success : CommandReturn → Bool
is_success c = c.return_variant == ReturnVariant.success

unfoldable pub is_success_u32 : CommandReturn → Bool
is_success_u32 c = c.return_variant == ReturnVariant.success_u32

unfoldable pub is_success_2_u32 : CommandReturn → Bool
is_success_2_u32 c = c.return_variant == ReturnVariant.success_2_u32

unfoldable pub is_success_u64 : CommandReturn → Bool
is_success_u64 c = c.return_variant == ReturnVariant.success_u64

unfoldable pub is_success_3_u32 : CommandReturn → Bool
is_success_3_u32 c = c.return_variant == ReturnVariant.success_3_u32

unfoldable pub is_success_u32_u64 : CommandReturn → Bool
is_success_u32_u64 c = c.return_variant == ReturnVariant.success_u32_u64

unfoldable pub get_failure : CommandReturn → Option ErrorCode
unfolding is_failure
get_failure c = if is_failure c then some (transmute c.r1) else none

unfoldable pub get_failure_u32 : CommandReturn → Option (ErrorCode × ℕ)
unfolding is_failure_u32
get_failure_u32 c = if is_failure_u32 c then some (transmute c.r1, c.r2) else none

unfoldable pub get_failure_2_u32 : CommandReturn → Option (ErrorCode × ℕ × ℕ)
unfolding is_failure_2_u32
get_failure_2_u32 c = if is_failure_2_u32 c then some (transmute c.r1, c.r2, c.r3) else none

unfoldable pub get_failure_u64 : CommandReturn → Option (ErrorCode × ℕ)
unfolding is_failure_u64
get_failure_u64 c = if is_failure_u64 c then some (transmute c.r1, add_high c.r2 c.r3) else none

unfoldable pub get_success_u32 : CommandReturn → Option ℕ
unfolding is_success_u32
get_success_u32 c = if is_success_u32 c then some c.r1 else none

unfoldable pub get_success_2_u32 : CommandReturn → Option (ℕ × ℕ)
unfolding is_success_2_u32
get_success_2_u32 c = if is_success_2_u32 c then some (c.r1, c.r2) else none

unfoldable pub get_success_u64 : CommandReturn → Option ℕ
unfolding is_success_u64
get_success_u64 c = if is_success_u64 c then some (add_high c.r1 c.r2) else none

unfoldable pub get_success_3_u32 : CommandReturn → Option (ℕ × ℕ × ℕ)
unfolding is_success_3_u32
get_success_3_u32 c = if is_success_3_u32 c then some (c.r1, c.r2, c.r3) else none

unfoldable pub get_success_u32_u64 : CommandReturn → Option (ℕ × ℕ)
unfolding is_success_u32_u64
get_success_u32_u64 c = if is_success_u32_u64 c then some (c.r1, add_high c.r2 c.r3) else none

unfoldable pub raw_values : CommandReturn → ReturnVariant × ℕ × ℕ × ℕ
raw_values c = (c.return_variant, c.r1, c.r2, c.r3)

-- The registers are 32 bits wide.
pub record IsWords (c : CommandReturn) : Type 0 where
  pub word_1 : c.r1 < 2 ^ 32
  pub word_2 : c.r2 < 2 ^ 32
  pub word_3 : c.r3 < 2 ^ 32

-- The variants of TRD 104 for a failed and for a successful call.
abbrev pub IsFailureVariant : ReturnVariant → Type 0
IsFailureVariant v = v ≤ 3

-- The safety invariant on `r1`: in a failure it is the number of an error code.
abbrev pub IsValid : CommandReturn → Type 0
IsValid c = IsFailureVariant c.return_variant → (1 ≤ c.r1) × (c.r1 ≤ 1024)
