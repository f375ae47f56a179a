-- ===== src/Unittest/Syscalls/Yield/Drain.antt =====
-- unittest/src/fake/syscalls/yield_impl.rs: what repeated yields make of a whole queue.
use libtock_rs.Common.{
  ℕ, zero, suc, ◌≡◌, refl, ◌∙◌, ap, none, some, List, [], ◌∷◌, Outcome, returns, panics, length,
  Option-cases, inl, inr, exits, bind-returns,
}
use libtock_rs.Platform.RawSyscalls.{YieldNoWaitReturn, no_upcall, upcall}
use libtock_rs.Unittest.KernelData.{KernelData, UpcallQueueEntry, SyscallLogEntry, Args}
use libtock_rs.Unittest.World.{World, M, Env, ◌>>=◌, pure}
use libtock_rs.Unittest.Syscalls.Enter.{enter, rest}
use libtock_rs.Unittest.Syscalls.Yield.{yield_no_wait, invoke}
use libtock_rs.Unittest.Syscalls.Yield.Fifo.{holding, no_wait_some, no_wait_none}

-- Upcalls that return and change the state outside the kernel only, each by `act`.
module _ {H : Type 0} (env : Env H) (act : ℕ → Args → ℕ → H → H)
    (acts : (f : ℕ) (a : Args) (p : ℕ) (w : World H)
      → env.upcall_fn f a p w ≡ returns (tt, record w { host = act f a p w.host })) where
  abbrev entry_acts : UpcallQueueEntry → H → H
  entry_acts e h = elim e.upcall.fn_pointer [ none ↦ h | some f ↦ act f e.args e.upcall.payload h ]

  -- What running these entries in order makes of the state outside the kernel.
  abbrev pub run_all : List UpcallQueueEntry → H → H
  run_all [] h = h
  run_all (e ∷ es) h = run_all es (entry_acts e h)

  abbrev drain_on : YieldNoWaitReturn → M H ℕ → M H ℕ
  drain_on no_upcall m w = returns (0, w)
  drain_on upcall m w = elim (m w) [
    | panics ↦ panics
    | exits c ↦ exits c
    | returns (n, w') ↦ returns (suc n, w')
  ]

  -- A yield-no-wait until there is no upcall, at most as often as given.
  abbrev pub drain : ℕ → M H ℕ
  drain zero = pure 0
  drain (suc n) = do r ← yield_no_wait env; drain_on r (drain n)

  invoke_acts :
      (e : UpcallQueueEntry) (w : World H)
      → invoke env e.upcall e.args w ≡ returns (tt, record w { host = entry_acts e w.host })
  unfolding invoke
  invoke_acts e w = elim (Option-cases e.upcall.fn_pointer) [
    | inl h ↦ rw (h, invoke, entry_acts) refl
    | inr (f, h) ↦ rw (h, invoke, entry_acts) (acts f e.args e.upcall.payload w)
  ]

  -- The kernel data after so many calls of yield-no-wait, but for the queue.
  abbrev pub yields : ℕ → KernelData → KernelData
  yields zero k = k
  yields (suc n) k = yields n (enter SyscallLogEntry.yield_no_wait k)

  abbrev pub emptied : KernelData → KernelData
  emptied k = record k { upcall_queue = [] }

  abbrev queue_of : List UpcallQueueEntry → KernelData → KernelData
  queue_of es k = record k { upcall_queue = es }

  emptied-yields :
      (n : ℕ) (k : KernelData) (es : List UpcallQueueEntry)
      → emptied (yields n (queue_of es k)) ≡ emptied (yields n k)
  emptied-yields zero k es = refl
  emptied-yields (suc n) k es = emptied-yields n (enter SyscallLogEntry.yield_no_wait k) es

  drain_step :
      (r : YieldNoWaitReturn) (n : ℕ) (w w' : World H)
      → yield_no_wait env w ≡ returns (r, w')
      → drain (suc n) w ≡ drain_on r (drain n) w'
  drain_step r n w w' e = bind-returns (yield_no_wait env) (λ r. drain_on r (drain n)) e

  drain_none :
      (w : World H) (k : KernelData)
      → w.kernel_data ≡ some k
      → k.expected_syscalls ≡ []
      → k.upcall_queue ≡ []
      → drain 1 w ≡ returns (0, record w { kernel_data = some (emptied (yields 1 k)) })
  drain_none w k hk he hq =
      drain_step no_upcall 0 w (holding env w (yields 1 k)) (no_wait_none env w k hk he hq)
      ∙ ap
          (λ q.
            let o : Outcome (ℕ × World H) = returns (0, holding env w (queue_of q (yields 1 k))) in
            o)
          hq

  drain-some :
      (e : UpcallQueueEntry) (es : List UpcallQueueEntry) (n m : ℕ) (w w' : World H)
      (k : KernelData)
      → w.kernel_data ≡ some k
      → k.expected_syscalls ≡ []
      → k.upcall_queue ≡ e ∷ es
      → drain n
          (record { kernel_data = some (queue_of es (yields 1 k)); host = entry_acts e w.host })
        ≡ returns (m, w')
      → drain (suc n) w ≡ returns (suc m, w')
  drain-some e es n m w w' k hk he hq run =
      drain_step upcall n w
        (record { kernel_data = some (queue_of es (yields 1 k)); host = entry_acts e w.host })
        (no_wait_some env w k e es _ hk he hq
          (invoke_acts e (holding env w (queue_of es (yields 1 k)))))
      ∙ rw (run, drain_on) refl

  -- A queue of such upcalls is run in the order in which it stands, one upcall for each
  -- yield-no-wait, each once; then yield-no-wait finds no upcall and the queue is empty. There are no
  -- expected system calls.
  pub drain_lem :
      (es : List UpcallQueueEntry) (w : World H) (k : KernelData)
      → w.kernel_data ≡ some k
      → k.expected_syscalls ≡ []
      → k.upcall_queue ≡ es
      → drain (suc (length es)) w
        ≡ returns (
          length es,
          record {
            kernel_data = some (emptied (yields (suc (length es)) k));
            host = run_all es w.host;
          },
        )
  drain_lem [] w k hk he hq = drain_none w k hk he hq
  drain_lem (e ∷ es) w k hk he hq = drain-some e es (suc (length es)) (length es) w _ k hk he hq (
      drain_lem es
        (record { kernel_data = some (queue_of es (yields 1 k)); host = entry_acts e w.host })
        (queue_of es (yields 1 k)) refl (ap rest he) refl
      ∙ ap
          (λ k'.
            returns (length es, record { kernel_data = some k'; host = run_all (e ∷ es) w.host }))
          (emptied-yields (suc (length es)) (enter SyscallLogEntry.yield_no_wait k) es))
