-- ===== src/Unittest/Fake/Allows.antt =====
-- `allow_ro` and `unallow_ro` of platform/src/syscalls_impl.rs on the fake kernel, where the driver
-- accepts the buffer.
use libtock_rs.Common.{
  ℕ, ◌<◌, ◌^◌, ◌≡◌, refl, ◌∙◌, some, [], lookup, ok, returns, arith, bind-returns,
}
use libtock_rs.Platform.ReturnVariant
use libtock_rs.Platform.Register.{as_u32}
use libtock_rs.Platform.Syscalls.{Config, allow_result}
use libtock_rs.Platform.Syscalls
use libtock_rs.Unittest.AllowDb.{AllowBuffer, Buffers, insert_ro_buffer, remove_ro_buffer, remove}
use libtock_rs.Unittest.KernelData.{KernelData, DriverData, SyscallLogEntry}
use libtock_rs.Unittest.World.{World, Env, with_kernel_data, ◌>>=◌, pure}
use libtock_rs.Unittest.Syscalls.Enter.{enter}
use libtock_rs.Unittest.Syscalls.Steps.{u32_step, closure_step}
use libtock_rs.Unittest.Syscalls.Allow.{
  allow_ro, allow_ro_enter, allow_ro_finish, allow_ro_leave, expect_allow_ro, allow_registers,
  buffer_of, error_of,
}
use libtock_rs.Unittest.Syscalls.Raw.{syscall4}
use libtock_rs.Unittest.Fake.{fake_syscalls}

abbrev pub shared_buffer : ℕ → ℕ → AllowBuffer
shared_buffer address len = record { address = address; len = len }

module _ {H : Type 0} (env : Env H) (n b address len : ℕ) (w : World H) (k : KernelData)
    (d : DriverData) (n32 : n < 2 ^ 32) (b32 : b < 2 ^ 32) (hk : w.kernel_data ≡ some k)
    (he : k.expected_syscalls ≡ []) (hd : lookup n k.drivers ≡ some d) (db : Buffers)
    (fits : insert_ro_buffer address len k.allow_db ≡ ok (shared_buffer address len, db)) where
  -- The kernel's data when the driver gets the buffer.
  abbrev pub sharing : KernelData
  sharing = record (enter (SyscallLogEntry.allow_ro n b len) k) { allow_db = db }

  enters :
      allow_ro_enter n b address len k ≡ returns (ok (d.driver, shared_buffer address len), sharing)
  unfolding allow_ro_enter expect_allow_ro
  enters = ground arith

  module _ (old : AllowBuffer) (w' : World H) (k' : KernelData)
      (answers : env.allow_readonly d.driver b
          (shared_buffer address len)
          (record w { kernel_data = some sharing })
        ≡ returns (ok old, w'))
      (hk' : w'.kernel_data ≡ some k') where
    -- The world where the buffer that the driver gave back is no longer active.
    abbrev pub exchanged : World H
    exchanged = record w' {
      kernel_data = some (record k' { allow_db = remove old.address k'.allow_db });
    }

    allow_ro_answers :
        allow_ro env n b address len w
        ≡ returns ((ReturnVariant.success_2_u32, old.address, old.len, len), exchanged)
    unfolding allow_ro allow_ro_finish allow_ro_leave remove_ro_buffer
    allow_ro_answers =
        u32_step n _ w n32
        ∙ u32_step b _ w b32
        ∙ closure_step (allow_ro_enter n b address len) (allow_ro_finish env b address len) w k
            sharing (ok (d.driver, shared_buffer address len)) hk enters
        ∙ bind-returns (env.allow_readonly d.driver b (shared_buffer address len))
            (λ result. with_kernel_data (allow_ro_leave (buffer_of result)) >>= λ out.
              pure (allow_registers (error_of result) out.0 out.1 len))
            answers
        ∙ closure_step (allow_ro_leave old) _ w' k' _ (old.address, old.len) hk' refl

    pub allow_ro_returns :
        (cfg : Config (World H))
        → old.address ≡ 0
        → old.len ≡ 0
        → Syscalls.allow_ro (fake_syscalls env) cfg n b address len w ≡ returns (ok tt, exchanged)
    unfolding Syscalls.allow_ro syscall4 allow_result as_u32
    allow_ro_returns cfg ha hl =
        bind-returns (allow_ro env n b address len) (allow_result (cfg.returned_nonzero_ro n b))
          allow_ro_answers
        ∙ rw (ha, hl) refl

module _ {H : Type 0} (env : Env H) (n b : ℕ) (w : World H) (k : KernelData) (d : DriverData)
    (n32 : n < 2 ^ 32) (b32 : b < 2 ^ 32) (hk : w.kernel_data ≡ some k)
    (he : k.expected_syscalls ≡ []) (hd : lookup n k.drivers ≡ some d) where
  -- The kernel's data when the driver gets the empty buffer.
  abbrev pub taking_back : KernelData
  taking_back = enter (SyscallLogEntry.allow_ro n b 0) k

  pub unallow_ro_returns :
      (old : AllowBuffer) (w' : World H) (k' : KernelData)
      → env.allow_readonly d.driver b
          (shared_buffer 0 0)
          (record w { kernel_data = some taking_back })
        ≡ returns (ok old, w')
      → w'.kernel_data ≡ some k'
      → Syscalls.unallow_ro (fake_syscalls env) n b w
        ≡ returns (
          tt,
          record w' {
            kernel_data = some (record k' { allow_db = remove old.address k'.allow_db });
          },
        )
  unfolding Syscalls.unallow_ro syscall4 insert_ro_buffer
  unallow_ro_returns old w' k' answers hk' =
      bind-returns (allow_ro env n b 0 0) (λ r. pure tt)
        (allow_ro_answers env n b 0 0 w k d n32 b32 hk he hd k.allow_db refl old w' k' answers hk')
