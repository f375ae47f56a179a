-- ===== src/Platform.antt =====
-- The crate `libtock_platform` (platform/src).
pub mod Constants
pub mod ErrorCode
pub mod ReturnVariant
pub mod CommandReturn
pub mod Register
pub mod RawSyscalls
pub mod Upcalls
pub mod Syscalls
pub mod Share
pub mod AsyncCall
