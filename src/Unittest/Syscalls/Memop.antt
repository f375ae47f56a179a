-- ===== src/Unittest/Syscalls/Memop.antt =====
-- unittest/src/fake/syscalls/memop_impl.rs. A `usize` of the host has 64 bits.
use libtock_rs.Common.{
  ℕ, ◌+◌, ◌-◌, ◌%◌, ◌^◌, ◌&&◌, Option, none, some, ◌==◌, ltb, if◌then◌else◌, Outcome, returns,
  panics, exits,
}
use libtock_rs.Platform.ErrorCode.{ErrorCode, as_u32, invalid}
use libtock_rs.Platform.ReturnVariant
use libtock_rs.Unittest.KernelData.{KernelData, ExpectedSyscall, SyscallLogEntry}
use libtock_rs.Unittest.World.{M, ◌>>=◌, pure, with_kernel_data, expect_u32}
use libtock_rs.Unittest.Syscalls.Enter.{enter, front}

-- The match on the expected system call, which gives the error to return.
unfoldable pub expect_memop : ℕ → ℕ → Option ExpectedSyscall → Outcome (Option ErrorCode)
expect_memop memop_num argument0 none = returns none
expect_memop memop_num argument0 (some (ExpectedSyscall.memop n a return_error)) =
    if memop_num == n && argument0 == a then returns return_error else panics
expect_memop memop_num argument0 (some _) = panics

-- `current.wrapping_byte_offset(argument0.as_i32() as isize)`: the low 32 bits of the argument are a
-- signed offset, and the sum wraps around.
unfoldable pub offset_break : ℕ → ℕ → ℕ
offset_break current argument0 =
    let low = argument0 % 2 ^ 32 in
    if ltb low (2 ^ 31)
    then (current + low) % 2 ^ 64
    else (current + 2 ^ 64 - (2 ^ 32 - low)) % 2 ^ 64

-- The emulation: the return variant, `r1`, and the kernel data.
unfoldable pub emulate : ℕ → ℕ → KernelData → Outcome ((ℕ × ℕ) × KernelData)
unfolding offset_break
emulate memop_num argument0 k =
    if memop_num == 0
    then (if argument0 == 0
        then returns ((ReturnVariant.failure, as_u32 invalid), k)
        else returns ((ReturnVariant.success, 0), record k { memory_break = argument0 }))
    else if memop_num == 1
    then (let new_brk = offset_break k.memory_break argument0 in
        returns ((ReturnVariant.success, new_brk), record k { memory_break = new_brk }))
    else if memop_num == 2
    then returns ((ReturnVariant.success, 0x123400), k)
    else if memop_num == 10
    then returns ((ReturnVariant.success, 0), k)
    else if memop_num == 11
    then returns ((ReturnVariant.success, 0), k)
    else panics

-- The closure: the error to return, and what the emulation returns.
unfoldable pub memop_enter :
    ℕ → ℕ → KernelData → Outcome ((Option ErrorCode × (ℕ × ℕ)) × KernelData)
unfolding expect_memop emulate
memop_enter memop_num argument0 k =
    let k' = enter (SyscallLogEntry.memop memop_num argument0) k in
    elim (expect_memop memop_num argument0 (front k.expected_syscalls)) [
      | panics ↦ panics
      | exits c ↦ exits c
      | returns return_error ↦ elim (emulate memop_num argument0 k') [
        | panics ↦ panics
        | exits c ↦ exits c
        | returns (registers, k'') ↦ returns ((return_error, registers), k'')
      ]
    ]

abbrev pub memop_registers : Option ErrorCode → ℕ × ℕ → ℕ × ℕ
memop_registers none registers = registers
memop_registers (some override_errcode) registers = (ReturnVariant.failure, as_u32 override_errcode)

unfoldable pub memop : {H : Type 0} → ℕ → ℕ → M H (ℕ × ℕ)
unfolding memop_enter
memop r0 argument0 = do
  memop_num ← expect_u32 r0
  found ← with_kernel_data (memop_enter memop_num argument0)
  pure (memop_registers found.0 found.1)
