-- ===== src/Unittest/Syscalls/Safety.antt =====
-- Every system call of unittest/src/fake/syscalls, as a whole, keeps the invariant of the kernel's
-- data, if the code of the test (drivers and upcalls) does; that code has access to the data through
-- the system calls and `schedule_upcall` only.
use libtock_rs.Common.{ℕ, Bool, true, false, Option, none, some, Result, ok, err, leb, arith, ◌==◌}
use libtock_rs.Platform.ErrorCode.{ErrorCode}
use libtock_rs.Unittest.AllowDb.{AllowBuffer}
use libtock_rs.Unittest.KernelData.{UpcallQueueEntry}
use libtock_rs.Unittest.World.{Env, pure}
use libtock_rs.Unittest.Syscalls.Rules.{
  KeepsSafe, KeepsEnv, bind-KeepsSafe, closure-KeepsSafe, u32-KeepsSafe, if-KeepsSafe,
}
use libtock_rs.Unittest.Syscalls.Closures
use libtock_rs.Unittest.Syscalls.Subscribe.{
  subscribe, subscribe_enter, subscribe_finish, subscribe_store,
}
use libtock_rs.Unittest.Syscalls.Command.{command, command_enter, driver_return}
use libtock_rs.Unittest.Syscalls.Allow.{
  allow_ro, allow_ro_enter, allow_ro_finish, allow_ro_leave, allow_rw, allow_rw_enter,
  allow_rw_finish, allow_rw_leave, buffer_of,
}
use libtock_rs.Unittest.Syscalls.Memop.{memop, memop_enter}
use libtock_rs.Unittest.Syscalls.Yield.{
  yield_no_wait, yield_wait, invoke_next_upcall, invoke_entry, invoke, assert_ran, pop_queue,
  yield_no_wait_enter, yield_wait_enter,
}
use libtock_rs.Unittest.Syscalls.Raw.{yield1, yield2, syscall1, syscall2, syscall4, exit}

module _ {H : Type 0} where
  subscribe_finish-KeepsSafe :
      (n s f p : ℕ) (skip : Option ErrorCode) (num : Option ℕ)
      → KeepsSafe {H = H} (subscribe_finish n s f p skip num)
  unfolding subscribe_finish
  subscribe_finish-KeepsSafe n s f p (some e) num = λ w safe. safe
  subscribe_finish-KeepsSafe n s f p none none = λ w safe. safe
  subscribe_finish-KeepsSafe n s f p none (some num) =
      if-KeepsSafe (leb num s) _ _ (λ w safe. safe)
        (closure-KeepsSafe (subscribe_store _ _) _ (λ k wf. Closures.subscribe_store-Keeps k wf _ _)
          λ out w safe. safe)

  subscribe-KeepsSafe : (r0 r1 f p : ℕ) → KeepsSafe {H = H} (subscribe r0 r1 f p)
  unfolding subscribe
  subscribe-KeepsSafe r0 r1 f p = u32-KeepsSafe r0 _ λ n. u32-KeepsSafe r1 _ λ s.
      closure-KeepsSafe (subscribe_enter n s) _ (λ k wf. Closures.subscribe_enter-Keeps k wf n s)
        λ found. subscribe_finish-KeepsSafe n s f p found.0 found.1

  memop-KeepsSafe : (r0 a : ℕ) → KeepsSafe {H = H} (memop r0 a)
  unfolding memop
  memop-KeepsSafe r0 a = u32-KeepsSafe r0 _ λ n.
      closure-KeepsSafe (memop_enter n a) _ (λ k wf. Closures.memop_enter-Keeps k wf n a)
        λ found w safe. safe

  exit-KeepsSafe : (r0 r1 : ℕ) → KeepsSafe {H = H} {A = ℕ × ℕ} (exit r0 r1)
  unfolding exit
  exit-KeepsSafe r0 r1 = u32-KeepsSafe r0 _ λ n. u32-KeepsSafe r1 _ λ c w safe. ground arith

module _ {H : Type 0} (env : Env H) (keeps : KeepsEnv env) where
  driver_return-KeepsSafe : (d : Option ℕ) (c a b : ℕ) → KeepsSafe (driver_return env d c a b)
  unfolding driver_return
  driver_return-KeepsSafe none c a b = λ w safe. safe
  driver_return-KeepsSafe (some d) c a b = keeps.commands d c a b

  command-KeepsSafe : (r0 r1 r2 r3 : ℕ) → KeepsSafe (command env r0 r1 r2 r3)
  unfolding command
  command-KeepsSafe r0 r1 r2 r3 = u32-KeepsSafe r0 _ λ d. u32-KeepsSafe r1 _ λ c.
      u32-KeepsSafe r2 _ λ a. u32-KeepsSafe r3 _ λ b.
        closure-KeepsSafe (command_enter d c a b) _
          (λ k wf. Closures.command_enter-Keeps k wf d c a b)
          λ found.
            bind-KeepsSafe (driver_return env found.0 c a b) _
              (driver_return-KeepsSafe found.0 c a b) λ r w safe. safe

  allow_ro_finish-KeepsSafe :
      (n address len : ℕ) (found : Result (ℕ × AllowBuffer) ErrorCode)
      → KeepsSafe (allow_ro_finish env n address len found)
  unfolding allow_ro_finish
  allow_ro_finish-KeepsSafe n address len (err e) = λ w safe. safe
  allow_ro_finish-KeepsSafe n address len (ok (d, buffer)) =
      bind-KeepsSafe (env.allow_readonly d n buffer) _ (keeps.allows_ro d n buffer) λ r.
        closure-KeepsSafe (allow_ro_leave (buffer_of r)) _
          (λ k wf. Closures.allow_ro_leave-Keeps k wf (buffer_of r)) λ out w safe. safe

  allow_ro-KeepsSafe : (r0 r1 address len : ℕ) → KeepsSafe (allow_ro env r0 r1 address len)
  unfolding allow_ro
  allow_ro-KeepsSafe r0 r1 address len = u32-KeepsSafe r0 _ λ d. u32-KeepsSafe r1 _ λ b.
      closure-KeepsSafe (allow_ro_enter d b address len) _
        (λ k wf. Closures.allow_ro_enter-Keeps k wf d b address len)
        λ found. allow_ro_finish-KeepsSafe b address len found

  allow_rw_finish-KeepsSafe :
      (n address len : ℕ) (found : Result (ℕ × AllowBuffer) ErrorCode)
      → KeepsSafe (allow_rw_finish env n address len found)
  unfolding allow_rw_finish
  allow_rw_finish-KeepsSafe n address len (err e) = λ w safe. safe
  allow_rw_finish-KeepsSafe n address len (ok (d, buffer)) =
      bind-KeepsSafe (env.allow_readwrite d n buffer) _ (keeps.allows_rw d n buffer) λ r.
        closure-KeepsSafe (allow_rw_leave (buffer_of r)) _
          (λ k wf. Closures.allow_rw_leave-Keeps k wf (buffer_of r)) λ out w safe. safe

  allow_rw-KeepsSafe : (r0 r1 address len : ℕ) → KeepsSafe (allow_rw env r0 r1 address len)
  unfolding allow_rw
  allow_rw-KeepsSafe r0 r1 address len = u32-KeepsSafe r0 _ λ d. u32-KeepsSafe r1 _ λ b.
      closure-KeepsSafe (allow_rw_enter d b address len) _
        (λ k wf. Closures.allow_rw_enter-Keeps k wf d b address len)
        λ found. allow_rw_finish-KeepsSafe b address len found

  invoke_entry-KeepsSafe : (e : Option UpcallQueueEntry) → KeepsSafe (invoke_entry env e)
  unfolding invoke_entry
  invoke_entry-KeepsSafe none = λ w safe. safe
  invoke_entry-KeepsSafe (some e) =
      bind-KeepsSafe (invoke env e.upcall e.args) _ (invoked e.upcall.fn_pointer) λ ran w safe. safe
    where
      invoked :
          (f : Option ℕ)
          → KeepsSafe {H = H} {A = Unit {0}} (elim f [
            | none ↦ pure tt
            | some fn_pointer ↦ env.upcall_fn fn_pointer e.args e.upcall.payload
          ])
      invoked none = λ w safe. safe
      invoked (some f) = keeps.upcalls f e.args e.upcall.payload

  invoke_next_upcall-KeepsSafe : KeepsSafe (invoke_next_upcall env)
  unfolding invoke_next_upcall
  invoke_next_upcall-KeepsSafe =
      closure-KeepsSafe pop_queue _ (λ k wf. Closures.pop_queue-Keeps k wf)
        λ e. invoke_entry-KeepsSafe e

  yield_no_wait-KeepsSafe : KeepsSafe (yield_no_wait env)
  unfolding yield_no_wait
  yield_no_wait-KeepsSafe =
      closure-KeepsSafe yield_no_wait_enter _ (λ k wf. Closures.yield_no_wait_enter-Keeps k wf)
        λ o.
          bind-KeepsSafe (invoke_next_upcall env) _ invoke_next_upcall-KeepsSafe λ ran w safe. safe

  asserted : (ran : Bool) → KeepsSafe {H = H} (assert_ran ran)
  asserted true = λ w safe. safe
  asserted false = λ w safe. tt

  yield_wait-KeepsSafe : KeepsSafe (yield_wait env)
  unfolding yield_wait
  yield_wait-KeepsSafe =
      closure-KeepsSafe yield_wait_enter _ (λ k wf. Closures.yield_wait_enter-Keeps k wf)
        λ skip.
          if-KeepsSafe skip _ _ (λ w safe. safe)
            (bind-KeepsSafe (invoke_next_upcall env) _ invoke_next_upcall-KeepsSafe asserted)

  -- If the code of the test keeps the data of the fake kernel well formed, so does every raw system
  -- call: whatever its class and registers, from a world with well-formed data it ends in one, if it
  -- returns. So every queued upcall stays active and the active buffers stay apart.
  pub syscalls-KeepsSafe :
      ((r0 : ℕ) → KeepsSafe (yield1 env r0))
      × ((r0 : ℕ) → KeepsSafe (yield2 env r0))
      × ((class r0 : ℕ) → KeepsSafe {H = H} (syscall1 class r0))
      × ((class r0 r1 : ℕ) → KeepsSafe {H = H} (syscall2 class r0 r1))
      × ((class r0 r1 r2 r3 : ℕ) → KeepsSafe (syscall4 env class r0 r1 r2 r3))
  unfolding yield1 yield2 syscall1 syscall2 syscall4
  syscalls-KeepsSafe = (
    λ r0. u32-KeepsSafe r0 _ λ n.
        if-KeepsSafe (n == 0) _ _ (λ w s. tt)
          (if-KeepsSafe (n == 1) _ _ yield_wait-KeepsSafe λ w s. tt),
    λ r0. u32-KeepsSafe r0 _ λ n. if-KeepsSafe (n == 0) _ _ yield_no_wait-KeepsSafe λ w s. tt,
    λ class r0. if-KeepsSafe (class == 5) _ _ (memop-KeepsSafe r0 0) λ w s. tt,
    λ class r0 r1.
        if-KeepsSafe (class == 5) _ _ (memop-KeepsSafe r0 r1)
          (if-KeepsSafe (class == 6) _ _ (exit-KeepsSafe r0 r1) λ w s. tt),
    λ class r0 r1 r2 r3. if-KeepsSafe (class == 1) _ _ (subscribe-KeepsSafe r0 r1 r2 r3) (
        if-KeepsSafe (class == 2) _ _ (command-KeepsSafe r0 r1 r2 r3) (
          if-KeepsSafe (class == 3) _ _ (allow_rw-KeepsSafe r0 r1 r2 r3)
            (if-KeepsSafe (class == 4) _ _ (allow_ro-KeepsSafe r0 r1 r2 r3) λ w s. tt))),
  )
