-- ===== src/Platform/Upcalls/Decode.antt =====
-- How the upcalls of platform/src/subscribe.rs that take a return code read it.
use libtock_rs.Common.{
  ℕ, ◌<◌, ◌≡◌, refl, ◌⊎◌, inl, inr, ◌≢◌, ==-ne, Result-cases, Option, some, Result, ok, err, arith,
  ◌==◌, if◌then◌else◌,
}
use libtock_rs.Platform.ErrorCode.{
  ErrorCode, IsErrorCode, as_u32, try_from, fail, not_an_error_code,
}
use libtock_rs.Platform.ErrorCode.Codes.{try_from_sound, try_from_refuses, as_u32_range}
use libtock_rs.Platform.Upcalls.{
  upcall_result, upcall_result_u32, upcall_result_2_u32, unwrap_or_fail,
}

-- What a cell holds after a return code with a value: the value for 0, the error with this number,
-- or `Fail` for a number that no error has.
abbrev pub IsDecoded : {A : Type 0} → ℕ → A → Option (Result A ErrorCode) → Type 0
IsDecoded code value cell =
    ((code ≡ 0) × (cell ≡ some (ok value)))
    ⊎ (((e : ErrorCode) × IsErrorCode e × (as_u32 e ≡ code) × (cell ≡ some (err e)))
        ⊎ ((1024 < code) × (cell ≡ some (err fail))))

-- The same for all three, by their common part.
decoded :
    {A : Type 0} (code : ℕ) (value : A)
    → IsDecoded code value
        (some (if code == 0 then ok value else err (unwrap_or_fail (try_from code))))
decoded code value = elim (Result-cases (try_from code)) [
  | inl (e, h) ↦ inr (
      inl (
        e,
        (try_from_sound code e h).0,
        (try_from_sound code e h).1,
        rw (h, ==-ne code 0 (nonzero e h)) refl,
      ))
  | inr (not_an_error_code, h) ↦ elim ((try_from_refuses code).0 h) [
    | inl z ↦ inl (z, rw (z) refl)
    | inr big ↦ inr (inr (big, rw (h, ==-ne code 0 (omega arith)) refl))
  ]
]
  where
    nonzero : (e : ErrorCode) → try_from code ≡ ok e → code ≢ 0
    nonzero e h z =
        absurd (
          omega (arith, z, (try_from_sound code e h).1, as_u32_range e (try_from_sound code e h).0))

-- The three upcalls that take a return code read it the same way: 0 is success and the further
-- arguments are the value, the number of an error code is that error, and any other number is `Fail`.
-- What the cell held before is lost.
pub upcall_results_decode :
    (code arg1 arg2 : ℕ) (cell : Option (Result (Unit {0}) ErrorCode))
    (cell_1 : Option (Result ℕ ErrorCode)) (cell_2 : Option (Result (ℕ × ℕ) ErrorCode))
    → IsDecoded code tt (upcall_result cell code arg1 arg2)
      × IsDecoded code arg1 (upcall_result_u32 cell_1 code arg1 arg2)
      × IsDecoded code (arg1, arg2) (upcall_result_2_u32 cell_2 code arg1 arg2)
unfolding upcall_result upcall_result_u32 upcall_result_2_u32
upcall_results_decode code arg1 arg2 cell cell_1 cell_2 =
    (decoded code tt, decoded code arg1, decoded code (arg1, arg2))
