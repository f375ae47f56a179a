-- ===== src/Unittest.antt =====
-- The crate `libtock_unittest` (unittest/src): the fake kernel that unit tests run on.
pub mod AllowDb
pub mod CommandReturn
pub mod KernelData
pub mod World
pub mod Memory
pub mod ShareData
pub mod Kernel
pub mod Syscalls
pub mod Fake
pub mod Reach
