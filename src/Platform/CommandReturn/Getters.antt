-- ===== src/Platform/CommandReturn/Getters.antt =====
-- The tests `is_*` of platform/src/command_return.rs tell the variants apart.
use libtock_rs.Common.{ℕ, ◌+◌, ◌≡◌, Bool, ◌&&◌, ◌||◌, List, [], ◌∷◌, leb, if◌then◌else◌, arith}
use libtock_rs.Platform.CommandReturn.Defs.{
  CommandReturn, is_failure, is_failure_u32, is_failure_2_u32, is_failure_u64, is_success,
  is_success_u32, is_success_2_u32, is_success_u64, is_success_3_u32, is_success_u32_u64,
}

-- Every test of the interface.
pub tests : CommandReturn → List Bool
tests c =
    is_failure c
    ∷ is_failure_u32 c
    ∷ is_failure_2_u32 c
    ∷ is_failure_u64 c
    ∷ is_success c
    ∷ is_success_u32 c
    ∷ is_success_2_u32 c
    ∷ is_success_u64 c
    ∷ is_success_3_u32 c
    ∷ is_success_u32_u64 c
    ∷ []

abbrev pub count_true : List Bool → ℕ
count_true [] = 0
count_true (b ∷ bs) = (if b then 1 else 0) + count_true bs

-- The numbers that TRD 104 gives to a variant.
abbrev pub is_known : ℕ → Bool
is_known v = leb v 3 || (leb 128 v && leb v 133)

-- Exactly one of the ten tests holds of a return whose variant is one of TRD 104's, and none of any
-- other.
pub tests_count :
    (c : CommandReturn) → count_true (tests c) ≡ (if is_known c.return_variant then 1 else 0)
unfolding tests is_failure is_failure_u32 is_failure_2_u32 is_failure_u64 is_success is_success_u32
    is_success_2_u32 is_success_u64 is_success_3_u32 is_success_u32_u64
tests_count c = ground arith
