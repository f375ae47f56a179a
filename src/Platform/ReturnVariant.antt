-- ===== src/Platform/ReturnVariant.antt =====
-- platform/src/return_variant.rs: the number that says which kind of values a call returned. The
-- newtype `ReturnVariant(u32)` is its number.
use libtock_rs.Common.{ℕ}

abbrev pub ReturnVariant : Type 0
ReturnVariant = ℕ

abbrev pub failure : ReturnVariant
failure = 0

abbrev pub failure_u32 : ReturnVariant
failure_u32 = 1

abbrev pub failure_2_u32 : ReturnVariant
failure_2_u32 = 2

abbrev pub failure_u64 : ReturnVariant
failure_u64 = 3

abbrev pub success : ReturnVariant
success = 128

abbrev pub success_u32 : ReturnVariant
success_u32 = 129

abbrev pub success_2_u32 : ReturnVariant
success_2_u32 = 130

abbrev pub success_u64 : ReturnVariant
success_u64 = 131

abbrev pub success_3_u32 : ReturnVariant
success_3_u32 = 132

abbrev pub success_u32_u64 : ReturnVariant
success_u32_u64 = 133
