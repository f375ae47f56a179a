-- ===== src/Platform/Register/Casts.antt =====
-- The casts of platform/src/register.rs lose nothing of a word.
use libtock_rs.Common.{ℕ, ◌^◌, ◌<◌, ◌≡◌, ◌↔◌, ◌⊎◌, inl, inr, some, arith}
use libtock_rs.Platform.Register.{from_u32, from_i32, as_u32, as_i32, try_from}

wide :
    (bits value : ℕ)
    → (bits ≡ 32) ⊎ (bits ≡ 64)
    → value < 2 ^ 32
    → as_i32 (from_i32 bits value) ≡ value
unfolding as_i32 from_i32
wide bits value (inl e) h = rw e (ground arith)
wide bits value (inr e) h = rw e (ground arith)

in_range :
    (bits value : ℕ) → (bits ≡ 32) ⊎ (bits ≡ 64) → value < 2 ^ 32 → from_i32 bits value < 2 ^ bits
unfolding from_i32
in_range bits value (inl e) h = rw e (ground arith)
in_range bits value (inr e) h = rw e (ground arith)

-- A `u32` and an `i32` come back from a register of 32 or 64 bits, the fallible conversion agrees
-- with the cast where it succeeds, and it succeeds exactly on registers that hold a `u32`.
pub register_casts :
    (bits value r : ℕ)
    → (bits ≡ 32) ⊎ (bits ≡ 64)
    → value < 2 ^ 32
    → (as_u32 (from_u32 value) ≡ value)
      × (as_i32 (from_i32 bits value) ≡ value)
      × (from_i32 bits value < 2 ^ bits)
      × (try_from (from_u32 value) ≡ some value)
      × ((try_from r ≡ some (as_u32 r)) ↔ (r < 2 ^ 32))
unfolding as_u32 from_u32 as_i32 from_i32 try_from
register_casts bits value r w h = (
  omega arith,
  wide bits value w h,
  in_range bits value w h,
  ground arith,
  (λ e. ground arith, λ e. ground arith),
)
