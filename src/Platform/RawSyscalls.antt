-- ===== src/Platform/RawSyscalls.antt =====
-- platform/src/raw_syscalls.rs: the interface `RawSyscalls`, over the state that its calls run on,
-- and platform/src/yield_types.rs. What `yield2` writes through its pointer argument is returned.
use libtock_rs.Common.{ℕ, Run}

pub data YieldNoWaitReturn : Type 0 where
  no_upcall upcall : YieldNoWaitReturn

abbrev pub Registers2 : Type 0
Registers2 = ℕ × ℕ

abbrev pub Registers4 : Type 0
Registers4 = ℕ × ℕ × ℕ × ℕ

pub record RawSyscalls (W : Type 0) : Type 0 where
  pub yield1 : ℕ → Run W (Unit {0})
  pub yield2 : ℕ → Run W YieldNoWaitReturn
  pub syscall1 : ℕ → ℕ → Run W Registers2
  pub syscall2 : ℕ → ℕ → ℕ → Run W Registers2
  pub syscall4 : ℕ → ℕ → ℕ → ℕ → ℕ → Run W Registers4
