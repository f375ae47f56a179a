-- ===== src/Platform/CommandReturn/Data.antt =====
-- platform/src/command_return.rs: the traits `SuccessData` and `FailureData` as records, a value
-- for each of the source's implementations, and `to_result`.
use libtock_rs.Common.{ℕ, ◌*◌, ◌%◌, ◌^◌, bit_or, ◌==◌, if◌then◌else◌, Result, ok, err}
use libtock_rs.Platform.ErrorCode.{ErrorCode, bad_r_val, transmute}
use libtock_rs.Platform.ReturnVariant
use libtock_rs.Platform.ReturnVariant.{ReturnVariant}
use libtock_rs.Platform.CommandReturn.Defs.{CommandReturn, raw_values}

pub record SuccessData {ℓ} (T : Type ℓ) : Type ℓ where
  pub return_variant : ReturnVariant
  pub from_raw_values : ℕ → ℕ → ℕ → T

pub record FailureData {ℓ} (E : Type ℓ) : Type ℓ where
  pub return_variant : ReturnVariant
  pub from_raw_values : ErrorCode → ℕ → ℕ → E

-- `lo as u64 | ((hi as u64) << 32)`
unfoldable pub or_high : ℕ → ℕ → ℕ
or_high lo hi = bit_or lo (hi * 2 ^ 32 % 2 ^ 64)

-- `impl SuccessData for ()`
abbrev pub success_unit : SuccessData (Unit {0})
success_unit = record { return_variant = ReturnVariant.success; from_raw_values = λ _ _ _. tt }

-- `impl SuccessData for u32`
abbrev pub success_u32 : SuccessData ℕ
success_u32 = record { return_variant = ReturnVariant.success_u32; from_raw_values = λ r1 _ _. r1 }

-- `impl SuccessData for u64`
abbrev pub success_u64 : SuccessData ℕ
success_u64 = record {
  return_variant = ReturnVariant.success_u64;
  from_raw_values = λ r1 r2 _. or_high r1 r2;
}

-- `impl SuccessData for (u32, u32)`
abbrev pub success_2_u32 : SuccessData (ℕ × ℕ)
success_2_u32 = record {
  return_variant = ReturnVariant.success_2_u32;
  from_raw_values = λ r1 r2 _. (r1, r2);
}

-- `impl SuccessData for (u32, u64)`
abbrev pub success_u32_u64 : SuccessData (ℕ × ℕ)
success_u32_u64 = record {
  return_variant = ReturnVariant.success_u32_u64;
  from_raw_values = λ r1 r2 r3. (r1, or_high r2 r3);
}

-- `impl SuccessData for (u32, u32, u32)`
abbrev pub success_3_u32 : SuccessData (ℕ × ℕ × ℕ)
success_3_u32 = record {
  return_variant = ReturnVariant.success_3_u32;
  from_raw_values = λ r1 r2 r3. (r1, r2, r3);
}

-- `impl FailureData for ErrorCode`
abbrev pub failure_code : FailureData ErrorCode
failure_code = record { return_variant = ReturnVariant.failure; from_raw_values = λ r1 _ _. r1 }

-- `impl FailureData for (ErrorCode, u32)`
abbrev pub failure_u32 : FailureData (ErrorCode × ℕ)
failure_u32 = record {
  return_variant = ReturnVariant.failure_u32;
  from_raw_values = λ r1 r2 _. (r1, r2);
}

-- `impl FailureData for (ErrorCode, u32, u32)`
abbrev pub failure_2_u32 : FailureData (ErrorCode × ℕ × ℕ)
failure_2_u32 = record {
  return_variant = ReturnVariant.failure_2_u32;
  from_raw_values = λ r1 r2 r3. (r1, r2, r3);
}

-- `impl FailureData for (ErrorCode, u64)`
abbrev pub failure_u64 : FailureData (ErrorCode × ℕ)
failure_u64 = record {
  return_variant = ReturnVariant.failure_u64;
  from_raw_values = λ r1 r2 r3. (r1, or_high r2 r3);
}

unfoldable pub to_result {ℓ κ} :
    {T : Type ℓ} {E : Type κ} → SuccessData T → FailureData E → CommandReturn → Result T E
unfolding raw_values
to_result t e c =
    let (return_variant, r1, r2, r3) = raw_values c in
    if return_variant == t.return_variant
    then ok (t.from_raw_values r1 r2 r3)
    else if return_variant == e.return_variant
    then err (e.from_raw_values (transmute r1) r2 r3)
    else err (e.from_raw_values bad_r_val 0 0)
