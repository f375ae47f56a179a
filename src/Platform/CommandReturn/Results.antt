-- ===== src/Platform/CommandReturn/Results.antt =====
-- `to_result` of platform/src/command_return.rs agrees with the getters.
use libtock_rs.Common.{
  Bool-cases, inl, inr, ◌==◌, refl, ==-ne, ℕ, ◌*◌, ◌%◌, ◌^◌, ◌<◌, ◌≡◌, ◌≢◌, ap, ◌∙◌, Option, none,
  some, bit_or-shift, bit_or, Result, ok, err, arith,
}
use libtock_rs.Platform.ErrorCode.{bad_r_val}
use libtock_rs.Platform.CommandReturn.Defs.{
  CommandReturn, IsWords, add_high, get_failure, get_failure_u32, get_failure_2_u32,
  get_failure_u64, get_success_u32, get_success_2_u32, get_success_u64, get_success_3_u32,
  get_success_u32_u64,
}
use libtock_rs.Platform.CommandReturn.Data
use libtock_rs.Platform.CommandReturn.Data.{SuccessData, FailureData, or_high, to_result}

-- `Result::ok`
abbrev pub ok? {ℓ κ} : {T : Type ℓ} {E : Type κ} → Result T E → Option T
ok? (ok a) = some a
ok? (err e) = none

abbrev get_or {ℓ} : {A : Type ℓ} → A → Option A → A
get_or a none = a
get_or a (some b) = b

-- The `|` of the traits and the `+` of the getters give the same `u64`.
pub or_high-eq-add_high : (lo hi : ℕ) → lo < 2 ^ 32 → hi < 2 ^ 32 → or_high lo hi ≡ add_high lo hi
unfolding or_high add_high
or_high-eq-add_high lo hi h k = ap (bit_or lo) shifted ∙ bit_or-shift 32 lo hi h ∙ omega arith
  where
    shifted : hi * 2 ^ 32 % 2 ^ 64 ≡ hi * 2 ^ 32
    shifted = omega arith

-- For each kind of success data, and whatever the failure data, `to_result` succeeds exactly when
-- the getter of that kind returns a value, and with that value; the registers are words.
pub ok-to_result {κ} :
    {E : Type κ} (e : FailureData E) (c : CommandReturn)
    → IsWords c
    → (ok? (to_result Data.success_u32 e c) ≡ get_success_u32 c)
      × (ok? (to_result Data.success_2_u32 e c) ≡ get_success_2_u32 c)
      × (ok? (to_result Data.success_u64 e c) ≡ get_success_u64 c)
      × (ok? (to_result Data.success_3_u32 e c) ≡ get_success_3_u32 c)
      × (ok? (to_result Data.success_u32_u64 e c) ≡ get_success_u32_u64 c)
unfolding to_result get_success_u32 get_success_2_u32 get_success_u64 get_success_3_u32
    get_success_u32_u64
ok-to_result e c w = (
  ground arith,
  ground arith,
  ground (arith, or_high-eq-add_high c.r1 c.r2),
  ground arith,
  ground (arith, or_high-eq-add_high c.r2 c.r3),
)

or_high-zero : or_high 0 0 ≡ 0
unfolding or_high
or_high-zero = refl

err_u64 {ℓ} :
    {T : Type ℓ} (t : SuccessData T) (c : CommandReturn)
    → IsWords c
    → c.return_variant ≢ t.return_variant
    → to_result t Data.failure_u64 c ≡ err (get_or (bad_r_val, 0) (get_failure_u64 c))
unfolding to_result get_failure_u64
err_u64 t c w h = rw (==-ne _ _ h) (elim (Bool-cases (c.return_variant == 3)) [
  | inl e ↦ rw (e, or_high-eq-add_high c.r2 c.r3 w.word_2 w.word_3)
  | inr e ↦ rw (e, or_high-zero)
])

-- Where the variant is not the one of the success data, `to_result` fails, with what the getter of
-- the failure data returns, or with `BadRVal` and zeros where that getter returns nothing.
pub err-to_result {ℓ} :
    {T : Type ℓ} (t : SuccessData T) (c : CommandReturn)
    → IsWords c
    → c.return_variant ≢ t.return_variant
    → (to_result t Data.failure_code c ≡ err (get_or bad_r_val (get_failure c)))
      × (to_result t Data.failure_u32 c ≡ err (get_or (bad_r_val, 0) (get_failure_u32 c)))
      × (to_result t Data.failure_2_u32 c ≡ err (get_or (bad_r_val, 0, 0) (get_failure_2_u32 c)))
      × (to_result t Data.failure_u64 c ≡ err (get_or (bad_r_val, 0) (get_failure_u64 c)))
unfolding to_result get_failure get_failure_u32 get_failure_2_u32 get_failure_u64
err-to_result t c w h = (ground arith, ground arith, ground arith, err_u64 t c w h)
