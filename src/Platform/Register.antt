-- ===== src/Platform/Register.antt =====
-- platform/src/register.rs. A register is the number of its bits, as a `usize`; provenance is not
-- modelled. `bits` is the width of a `usize`, 32 on a board and 64 on the host of the unit tests. An
-- `i32` is the number of its 32 bits.
pub mod Casts
use libtock_rs.Common.{ℕ, ◌+◌, ◌-◌, ◌%◌, ◌^◌, Option, none, some, ltb, if◌then◌else◌}

abbrev pub Register : Type 0
Register = ℕ

-- `value as usize` for a `u32`.
unfoldable pub from_u32 : ℕ → Register
from_u32 value = value

-- `value as usize` for an `i32`: the sign bit fills the upper half.
unfoldable pub from_i32 : ℕ → ℕ → Register
from_i32 bits value = if ltb value (2 ^ 31) then value else value + (2 ^ bits - 2 ^ 32)

unfoldable pub as_u32 : Register → ℕ
as_u32 r = r % 2 ^ 32

unfoldable pub as_i32 : Register → ℕ
as_i32 r = r % 2 ^ 32

-- `TryFrom<Register> for u32`
unfoldable pub try_from : Register → Option ℕ
try_from r = if ltb r (2 ^ 32) then some r else none
