-- ===== src/Unittest/Syscalls.antt =====
-- The system calls of the fake kernel: unittest/src/fake/syscalls.
pub mod Enter
pub mod Subscribe
pub mod Command
pub mod Allow
pub mod Memop
pub mod Yield
pub mod Raw
pub mod Closures
pub mod Steps
pub mod Rules
pub mod Safety
