-- ===== src/Unittest/Syscalls/Steps.antt =====
-- How a run over the world of unittest/src/kernel_data.rs goes on past its first step.
use libtock_rs.Common.{ℕ, ◌<◌, ◌^◌, ◌≡◌, ap, some, lt→ltb, Outcome, returns, bind-returns}
use libtock_rs.Unittest.KernelData.{KernelData}
use libtock_rs.Unittest.World.{World, M, ◌>>=◌, put_back, with_kernel_data, expect_u32}

expect_u32-returns :
    {H : Type 0} (r : ℕ) (w : World H) → r < 2 ^ 32 → expect_u32 r w ≡ returns (r, w)
expect_u32-returns r w h = rw (lt→ltb r (2 ^ 32) h)

pub u32_step :
    {H A : Type 0} (r : ℕ) (g : ℕ → M H A) (w : World H)
    → r < 2 ^ 32
    → (expect_u32 r >>= g) w ≡ g r w
u32_step r g w h = bind-returns (expect_u32 r) g (expect_u32-returns r w h)

with_kernel_data-returns :
    {H A : Type 0} (f : KernelData → Outcome (A × KernelData)) (w : World H) (k k' : KernelData)
    (a : A)
    → w.kernel_data ≡ some k
    → f k ≡ returns (a, k')
    → with_kernel_data f w ≡ returns (a, record w { kernel_data = some k' })
with_kernel_data-returns f w k k' a hk e = rw (hk, with_kernel_data) (ap (put_back w) e)

pub closure_step :
    {H A B : Type 0} (f : KernelData → Outcome (A × KernelData)) (g : A → M H B) (w : World H)
    (k k' : KernelData) (a : A)
    → w.kernel_data ≡ some k
    → f k ≡ returns (a, k')
    → (with_kernel_data f >>= g) w ≡ g a (record w { kernel_data = some k' })
closure_step f g w k k' a hk e =
    bind-returns (with_kernel_data f) g (with_kernel_data-returns f w k k' a hk e)
