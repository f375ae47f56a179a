-- ===== src/Platform/CommandReturn.antt =====
-- platform/src/command_return.rs: the four registers that a Command call returns, read by the
-- kind of value they hold. A `u32` or `u64` is a number; the arithmetic of `u64` is reduced.
mod Defs
pub mod Data
pub mod Getters
pub mod Results
unfoldable pub use Defs.*
