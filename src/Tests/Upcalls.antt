-- ===== src/Tests/Upcalls.antt =====
-- Tests of unittest/src/fake/syscalls/yield_impl.rs, and a run of a whole test.
use libtock_rs.Common.{ℕ, ◌≡◌, refl, none, some, [], ◌∷◌, returns, arith}
use libtock_rs.Platform.AsyncCall.{CallState, new_state, shared_upcall}
use libtock_rs.Unittest.KernelData.{KernelData, SyscallLogEntry, Args}
use libtock_rs.Unittest.World.{World}
use libtock_rs.Unittest.Kernel
use libtock_rs.Unittest.Syscalls.Enter.{enter}
use libtock_rs.Unittest.Syscalls.Yield.{yield_wait, invoke}
use libtock_rs.Unittest.Syscalls.Yield.Fifo.{yield_wait_runs}
use libtock_rs.Unittest.Syscalls.Yield.Drain.{drain_lem, drain, emptied, yields}
use libtock_rs.Unittest.Syscalls.Rules.{IsSafe, KeepsEnv}
use libtock_rs.Unittest.Reach.{Step, Reaches, here, further, Reaches-IsSafe}
use libtock_rs.Tests.World.{env, quiet, upcall_3, entry, kernel, world}

abbrev one : KernelData
one = kernel ((0, upcall_3) ∷ []) (entry (1, 2, 0) ∷ []) []

abbrev called : World CallState
called = record {
  kernel_data = some (enter SyscallLogEntry.yield_wait (kernel ((0, upcall_3) ∷ []) [] []));
  host = record new_state { args = some (1, 2, 0) };
}

yield_wait_runs_example : yield_wait env (world one) ≡ returns (tt, called)
yield_wait_runs_example =
    yield_wait_runs env (world one) one (entry (1, 2, 0)) [] called refl refl refl
      (unfold invoke shared_upcall in refl)

-- Upcalls that store their arguments and wake no task.
abbrev act : ℕ → Args → ℕ → CallState → CallState
act f args p s = record s { args = some args; waker = none }

env_acts :
    (f : ℕ) (a : Args) (p : ℕ) (w : World CallState)
    → env.upcall_fn f a p w ≡ returns (tt, record w { host = act f a p w.host })
unfolding shared_upcall
env_acts f a p w = ground arith

abbrev two : KernelData
two = kernel ((0, upcall_3) ∷ []) (entry (1, 2, 0) ∷ entry (3, 4, 0) ∷ []) []

drain_lem_example :
    drain env act env_acts 3 (world two)
    ≡ returns (
      2,
      record {
        kernel_data = some (emptied env act env_acts (yields env act env_acts 3 two));
        host = record new_state { args = some (3, 4, 0) };
      },
    )
drain_lem_example = drain_lem env act env_acts (two.upcall_queue) (world two) two refl refl refl

quiet-KeepsEnv : KeepsEnv quiet
quiet-KeepsEnv = record {
  registers = λ d n w s. s;
  commands = λ d c a b w s. s;
  allows_ro = λ d n b w s. s;
  allows_rw = λ d n b w s. s;
  upcalls = λ f args p w s. s;
}

abbrev nothing : World CallState
nothing = record { kernel_data = none; host = new_state }

-- A kernel is made and a driver added.
abbrev with_driver : World CallState
with_driver = world (kernel [] [] [])

made : Reaches quiet nothing (world (Kernel.empty_kernel 0))
made =
    further nothing nothing (world (Kernel.empty_kernel 0)) (here nothing)
      (Step.new 0 nothing (world (Kernel.empty_kernel 0)) (unfold Kernel.new in refl))

added : Reaches quiet nothing with_driver
added = further nothing (world (Kernel.empty_kernel 0)) with_driver made (
    Step.add_driver 0 (world (Kernel.empty_kernel 0)) with_driver
      (unfold Kernel.add_driver Kernel.insert_driver in refl))

Reaches-IsSafe_example : IsSafe with_driver
Reaches-IsSafe_example = Reaches-IsSafe quiet quiet-KeepsEnv nothing with_driver refl added
