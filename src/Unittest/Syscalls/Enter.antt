-- ===== src/Unittest/Syscalls/Enter.antt =====
-- How each system call of unittest/src/fake/syscalls begins: `syscall_log.push`, then
-- `expected_syscalls.pop_front`. And the registers that it returns.
use libtock_rs.Common.{ℕ, Option, none, some, List, [], ◌∷◌, ◌++◌}
use libtock_rs.Platform.ErrorCode.{ErrorCode, as_u32}
use libtock_rs.Platform.ReturnVariant
use libtock_rs.Unittest.KernelData.{KernelData, ExpectedSyscall, SyscallLogEntry}

abbrev pub Registers4 : Type 0
Registers4 = ℕ × ℕ × ℕ × ℕ

abbrev pub push_log : SyscallLogEntry → KernelData → KernelData
push_log e k = record k { syscall_log = k.syscall_log ++ e ∷ [] }

abbrev pub front : List ExpectedSyscall → Option ExpectedSyscall
front [] = none
front (e ∷ es) = some e

abbrev pub rest : List ExpectedSyscall → List ExpectedSyscall
rest [] = []
rest (e ∷ es) = es

abbrev pub pop_expected : KernelData → KernelData
pop_expected k = record k { expected_syscalls = rest k.expected_syscalls }

-- The kernel data behind both.
abbrev pub enter : SyscallLogEntry → KernelData → KernelData
enter e k = pop_expected (push_log e k)

-- The registers of a failure with two words.
abbrev pub failure_registers : ErrorCode → ℕ → ℕ → Registers4
failure_registers e r2 r3 = (ReturnVariant.failure_2_u32, as_u32 e, r2, r3)
