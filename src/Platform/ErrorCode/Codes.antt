-- ===== src/Platform/ErrorCode/Codes.antt =====
-- Error codes and their numbers are in bijection.
use libtock_rs.Common.{ap, ℕ, ◌≤◌, ◌<◌, ◌≡◌, refl, ◌↔◌, ◌⊎◌, inl, inr, none, arith, ok, err}
use native.Mathlib.Decide.{dec_le}
use libtock_rs.Platform.ErrorCode.{
  ErrorCode, reserved, IsErrorCode, as_u32, transmute, try_from, as_str, not_an_error_code,
}

-- The variant of a number has that number.
pub as_u32-transmute : (value : ℕ) → as_u32 (transmute value) ≡ value
unfolding as_u32 transmute
as_u32-transmute value = ground arith

pub transmute-IsErrorCode : (value : ℕ) → 1 ≤ value → value ≤ 1024 → IsErrorCode (transmute value)
unfolding transmute
transmute-IsErrorCode value h k = ground arith

pub as_u32_range : (e : ErrorCode) → IsErrorCode e → (1 ≤ as_u32 e) × (as_u32 e ≤ 1024)
unfolding as_u32
as_u32_range (reserved n) h = omega arith
as_u32_range _ h = omega arith

pub transmute-as_u32 : (e : ErrorCode) → IsErrorCode e → transmute (as_u32 e) ≡ e
unfolding as_u32 transmute
transmute-as_u32 (reserved n) h = ground arith
transmute-as_u32 _ h = refl

abbrev IsCode : ℕ → Type 0
IsCode value = (1 ≤ value) × (value ≤ 1024)

try_from_in : (value : ℕ) → IsCode value → try_from value ≡ ok (transmute value)
unfolding try_from
try_from_in value h = ground arith

try_from_out : (value : ℕ) → ¬ IsCode value → try_from value ≡ err not_an_error_code
unfolding try_from
try_from_out value h = ground arith

IsCode-cases : (value : ℕ) → IsCode value ⊎ (¬ IsCode value)
IsCode-cases value = elim (dec_le 1 value) [
  | yes low ↦ elim (dec_le value 1024) [
    | yes high ↦ inl (low, high)
    | no above ↦ inr (λ h. above h.1)
  ]
  | no below ↦ inr (λ h. below h.0)
]

in_range :
    (value : ℕ) → IsCode value → IsErrorCode (transmute value) × (as_u32 (transmute value) ≡ value)
in_range value h = (transmute-IsErrorCode value h.0 h.1, as_u32-transmute value)

e-transmute :
    (value : ℕ) (e : ErrorCode) → try_from value ≡ ok e → IsCode value → transmute value ≡ e
e-transmute value e h code = cc (try_from_in value code)

-- `try_from` reads back the number of every error code.
pub try_from-as_u32 : (e : ErrorCode) → IsErrorCode e → try_from (as_u32 e) ≡ ok e
try_from-as_u32 e h = rw (try_from_in (as_u32 e) (as_u32_range e h)) (ap ok (transmute-as_u32 e h))

-- Whatever `try_from` returns for a number is an error code with that number.
pub try_from_sound :
    (value : ℕ) (e : ErrorCode) → try_from value ≡ ok e → IsErrorCode e × (as_u32 e ≡ value)
try_from_sound value e h = elim (IsCode-cases value) [
  | inl code ↦ rw (← e-transmute value e h code) (in_range value code)
  | inr none_such ↦ absurd (cc (try_from_out value none_such))
]

-- `try_from` refuses exactly the numbers that no error code has: 0 and those above 1024.
pub try_from_refuses :
    (value : ℕ) → (try_from value ≡ err not_an_error_code) ↔ ((value ≡ 0) ⊎ (1024 < value))
unfolding try_from
try_from_refuses value = (λ h. ground arith, λ h. ground arith)

-- The codes that have a name are 1 to 13 and 1024; every other error code prints as its number.
pub as_str_names :
    (value : ℕ)
    → 1 ≤ value
    → value ≤ 1024
    → (as_str (transmute value) ≡ none) ↔ ((14 ≤ value) × (value ≤ 1023))
unfolding as_str transmute
as_str_names value h k = (λ e. ground arith, λ e. ground arith)
