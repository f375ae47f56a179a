-- ===== src/Unittest/World.antt =====
-- What runs around the fake kernel: the thread-local `KERNEL_DATA` of unittest/src/kernel_data.rs,
-- the trait `SyscallDriver` of unittest/src/fake/syscall_driver.rs, and the code of the test.
--
-- The world is the kernel data, where a kernel exists, and the state of all else, the drivers'
-- fields and what upcalls write into. A driver's methods and the upcalls are code of the test, which
-- may make system calls itself: they are functions on the whole world. A panic or an
-- exit ends the run.
pub use libtock_rs.Common.{◌>>=◌, ◌>>◌, pure}
use libtock_rs.Common.{
  Run, ℕ, Option, none, some, Result, Outcome, returns, panics, exits, ◌^◌, ltb, if◌then◌else◌,
}
use libtock_rs.Platform.ErrorCode.{ErrorCode}
use libtock_rs.Platform.CommandReturn.{CommandReturn}
use libtock_rs.Platform.AsyncCall.{Place}
use libtock_rs.Unittest.AllowDb.{AllowBuffer}
use libtock_rs.Unittest.KernelData.{KernelData, DriverInfo, Args}

pub record World (H : Type 0) : Type 0 where
  pub kernel_data : Option KernelData
  pub host : H

abbrev pub M : Type 0 → Type 0 → Type 0
M H A = Run (World H) A

-- A place in the state outside the kernel is one in the world.
abbrev pub hosted : {H S : Type 0} → Place H S → Place (World H) S
hosted place = record {
  get = λ w. place.get w.host;
  put = λ s w. record w { host = place.put s w.host };
  get-put = λ s w. place.get-put s w.host;
}

-- The result of a closure over the kernel data, which is put back into the world.
abbrev pub put_back : {H A : Type 0} → World H → Outcome (A × KernelData) → Outcome (A × World H)
put_back w panics = panics
put_back w (exits c) = exits c
put_back w (returns (a, k)) = returns (a, record w { kernel_data = some k })

-- `with_kernel_data(|kernel_data| … kernel_data.expect(…) …)`, where the closure may panic.
abbrev pub with_kernel_data : {H A : Type 0} → (KernelData → Outcome (A × KernelData)) → M H A
with_kernel_data f w = elim w.kernel_data [ none ↦ panics | some k ↦ put_back w (f k) ]

-- The methods of the drivers, by the driver's number, and the functions that upcalls call.
pub record Env (H : Type 0) : Type 0 where
  pub info : ℕ → DriverInfo
  pub register : ℕ → ℕ → M H (Unit {0})
  pub command : ℕ → ℕ → ℕ → ℕ → M H CommandReturn
  pub allow_readonly : ℕ → ℕ → AllowBuffer → M H (Result AllowBuffer (AllowBuffer × ErrorCode))
  pub allow_readwrite : ℕ → ℕ → AllowBuffer → M H (Result AllowBuffer (AllowBuffer × ErrorCode))
  pub upcall_fn : ℕ → Args → ℕ → M H (Unit {0})

-- `register.try_into().expect(…)` into a `u32`.
abbrev pub expect_u32 : {H : Type 0} → ℕ → M H ℕ
expect_u32 r w = if ltb r (2 ^ 32) then returns (r, w) else panics
