-- ===== src/Unittest/Reach.antt =====
-- The worlds that a test reaches with the fake kernel of unittest/src: by any sequence of system
-- calls, calls of `fake::Kernel`, upcalls that drivers schedule, and changes outside the kernel.
use libtock_rs.Common.{sym, ℕ, ◌≡◌, none, List, returns, subst, Option-cases, inl, inr}
use libtock_rs.Platform.RawSyscalls.{YieldNoWaitReturn}
use libtock_rs.Unittest.KernelData.{Args, ExpectedSyscall, SyscallLogEntry}
use libtock_rs.Unittest.World.{World, M, Env}
use libtock_rs.Unittest.ShareData
use libtock_rs.Unittest.ShareData.{Schedule, schedule}
use libtock_rs.Unittest.Kernel
use libtock_rs.Unittest.Kernel.{push_expected, take_log, insert_driver}
use libtock_rs.Unittest.Kernel.Invariant.{IsWellFormed}
use libtock_rs.Unittest.Syscalls.Rules.{
  KernelSafe, IsSafe, EndsSafe, KeepsSafe, KeepsEnv, put_back-EndsSafe, with_kernel_data-KeepsSafe,
  closure-KeepsSafe,
}
use libtock_rs.Unittest.Syscalls.Closures
use libtock_rs.Unittest.Syscalls.Safety.{syscalls-KeepsSafe}
use libtock_rs.Unittest.Syscalls.Raw

module _ {H : Type 0} (env : Env H) where
  -- A call that returns.
  pub data Step : World H → World H → Type 0 where
    new : (location : ℕ) (w w' : World H) → Kernel.new location w ≡ returns (tt, w') → Step w w'
    add_driver :
        (driver : ℕ) (w w' : World H)
        → Kernel.add_driver env driver w ≡ returns (tt, w')
        → Step w w'
    add_expected_syscall :
        (e : ExpectedSyscall) (w w' : World H)
        → Kernel.add_expected_syscall e w ≡ returns (tt, w')
        → Step w w'
    take_syscall_log :
        (log : List SyscallLogEntry) (w w' : World H)
        → Kernel.take_syscall_log w ≡ returns (log, w')
        → Step w w'
    drop : (w : World H) → Step w (Kernel.drop w)
    schedule_upcall :
        (n s : ℕ) (args : Args) (r : Schedule) (w w' : World H)
        → ShareData.schedule_upcall n s args w ≡ returns (r, w')
        → Step w w'
    yield1 : (r0 : ℕ) (w w' : World H) → Raw.yield1 env r0 w ≡ returns (tt, w') → Step w w'
    yield2 :
        (r0 : ℕ) (r : YieldNoWaitReturn) (w w' : World H)
        → Raw.yield2 env r0 w ≡ returns (r, w')
        → Step w w'
    syscall1 :
        (class r0 : ℕ) (r : ℕ × ℕ) (w w' : World H)
        → Raw.syscall1 class r0 w ≡ returns (r, w')
        → Step w w'
    syscall2 :
        (class r0 r1 : ℕ) (r : ℕ × ℕ) (w w' : World H)
        → Raw.syscall2 class r0 r1 w ≡ returns (r, w')
        → Step w w'
    syscall4 :
        (class r0 r1 r2 r3 : ℕ) (r : ℕ × ℕ × ℕ × ℕ) (w w' : World H)
        → Raw.syscall4 env class r0 r1 r2 r3 w ≡ returns (r, w')
        → Step w w'
    elsewhere : (h : H) (w : World H) → Step w (record w { host = h })

  pub data Reaches : World H → World H → Type 0 where
    here : (w : World H) → Reaches w w
    further : (w v u : World H) → Reaches w v → Step v u → Reaches w u

  module _ (keeps : KeepsEnv env) where
    kept :
        {A : Type 0} (m : M H A) (a : A) (w w' : World H)
        → KeepsSafe m
        → IsSafe w
        → m w ≡ returns (a, w')
        → IsSafe w'
    kept m a w w' h s e = subst EndsSafe e (h w s)

    empty-IsSafe : (location : ℕ) → IsWellFormed (Kernel.empty_kernel location)
    empty-IsSafe location = record { active = tt; disjoint = tt }

    new-KeepsSafe : (location : ℕ) → KeepsSafe {H = H} (Kernel.new location)
    unfolding Kernel.new
    new-KeepsSafe location w s = elim (Option-cases w.kernel_data) [
      | inl e ↦ rw (e, Kernel.new) (empty-IsSafe location)
      | inr (k, e) ↦ rw (e, Kernel.new) tt
    ]

    schedule_upcall-KeepsSafe :
        (n s : ℕ) (args : Args) → KeepsSafe {H = H} (ShareData.schedule_upcall n s args)
    unfolding ShareData.schedule_upcall
    schedule_upcall-KeepsSafe n s args w safe = elim (Option-cases w.kernel_data) [
      | inl e ↦ rw (e, ShareData.schedule_upcall) (subst KernelSafe (sym e) tt)
      | inr (k, e) ↦
          rw (e, ShareData.schedule_upcall)
            (put_back-EndsSafe w (schedule n s args k)
              (Closures.schedule-Keeps k (subst KernelSafe e safe) n s args))
    ]

    add_driver-KeepsSafe : (driver : ℕ) → KeepsSafe (Kernel.add_driver env driver)
    unfolding Kernel.add_driver
    add_driver-KeepsSafe driver =
        closure-KeepsSafe (insert_driver _ _) _ (λ k wf. Closures.insert_driver-Keeps k wf _ _)
          λ _. keeps.registers driver _

    expected-KeepsSafe : (e : ExpectedSyscall) → KeepsSafe {H = H} (Kernel.add_expected_syscall e)
    unfolding Kernel.add_expected_syscall
    expected-KeepsSafe e =
        with_kernel_data-KeepsSafe (push_expected e)
          λ k wf. record { active = wf.active; disjoint = wf.disjoint }

    log-KeepsSafe : KeepsSafe {H = H} Kernel.take_syscall_log
    unfolding Kernel.take_syscall_log
    log-KeepsSafe =
        with_kernel_data-KeepsSafe take_log
          λ k wf. record { active = wf.active; disjoint = wf.disjoint }

    step-IsSafe : (w w' : World H) → Step w w' → IsSafe w → IsSafe w'
    step-IsSafe w w' (Step.new location _ _ e) s =
        kept (Kernel.new location) tt w w' (new-KeepsSafe location) s e
    step-IsSafe w w' (Step.add_driver driver _ _ e) s =
        kept (Kernel.add_driver env driver) tt w w' (add_driver-KeepsSafe driver) s e
    step-IsSafe w w' (Step.add_expected_syscall x _ _ e) s =
        kept (Kernel.add_expected_syscall x) tt w w' (expected-KeepsSafe x) s e
    step-IsSafe w w' (Step.take_syscall_log log _ _ e) s =
        kept Kernel.take_syscall_log log w w' log-KeepsSafe s e
    step-IsSafe w w' (Step.drop _) s = unfold Kernel.drop in tt
    step-IsSafe w w' (Step.schedule_upcall n m args r _ _ e) s =
        kept (ShareData.schedule_upcall n m args) r w w' (schedule_upcall-KeepsSafe n m args) s e
    step-IsSafe w w' (Step.yield1 r0 _ _ e) s =
        kept (Raw.yield1 env r0) tt w w' ((syscalls-KeepsSafe env keeps).0 r0) s e
    step-IsSafe w w' (Step.yield2 r0 r _ _ e) s =
        kept (Raw.yield2 env r0) r w w' ((syscalls-KeepsSafe env keeps).1 r0) s e
    step-IsSafe w w' (Step.syscall1 class r0 r _ _ e) s =
        kept (Raw.syscall1 class r0) r w w' ((syscalls-KeepsSafe env keeps).2 class r0) s e
    step-IsSafe w w' (Step.syscall2 class r0 r1 r _ _ e) s =
        kept (Raw.syscall2 class r0 r1) r w w' ((syscalls-KeepsSafe env keeps).3 class r0 r1) s e
    step-IsSafe w w' (Step.syscall4 class r0 r1 r2 r3 r _ _ e) s =
        kept (Raw.syscall4 env class r0 r1 r2 r3) r w w'
          ((syscalls-KeepsSafe env keeps).4 class r0 r1 r2 r3) s e
    step-IsSafe w w' (Step.elsewhere h _) s = s

    -- Whatever a test does from a world with no fake kernel, the kernel's data is well formed where
    -- there is a kernel: every upcall in the queue is the one registered under its number, which is
    -- in its driver's range, and is not null; and the active buffers do not overlap. The code of the
    -- drivers and the upcalls keeps this too.
    pub Reaches-IsSafe : (w w' : World H) → w.kernel_data ≡ none → Reaches w w' → IsSafe w'
    Reaches-IsSafe w w' h (here _) = subst KernelSafe (sym h) tt
    Reaches-IsSafe w w' h (further _ v _ r s) = step-IsSafe v w' s (Reaches-IsSafe w v h r)
