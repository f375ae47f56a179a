-- ===== src/Platform/AsyncCall/States.antt =====
-- The life of the futures of platform/src/async_call.rs: what one poll leaves for the next.
use libtock_rs.Common.{
  ℕ, true, none, some, List, Result, ok, returns, Run, ◌>>=◌, pure, ◌≡◌, refl, bind-returns, ◌∙◌,
  Option-cases, inl, inr,
}
use libtock_rs.Platform.ErrorCode.{ErrorCode}
use libtock_rs.Platform.RawSyscalls.{RawSyscalls}
use libtock_rs.Platform.Syscalls.{Config, Fallible, subscribe, allow_rw, unallow_rw}
use libtock_rs.Platform.AsyncCall.{Poll, ready, pending, Place, CallState, shared_upcall}
use libtock_rs.Platform.AsyncCall.Call
use libtock_rs.Platform.AsyncCall.Call.{Operation}
use libtock_rs.Platform.AsyncCall.BufferedCall
use libtock_rs.Platform.AsyncCall.BufferedCall.{BufferedOperation}
use libtock_rs.Platform.AsyncCall.Polls.{
  waiting, IsWaiting, poll_waits, poll_of_waiting, poll_of_called, set_starts, step_ok,
}

-- Wakers that leave the state of the future alone.
module _ {W : Type 0} (place : Place W CallState) (wake : ℕ → Run W (Unit {0}))
    (wakes : (waker : ℕ) (v v' : W)
      → wake waker v ≡ returns (tt, v')
      → place.get v' ≡ place.get v) where
  -- The world where the arguments are stored and the waker is taken.
  abbrev called : ℕ × ℕ × ℕ → W → W
  called args w = place.put (record (place.get w) { args = some args; waker = none }) w

  called-args : (args : ℕ × ℕ × ℕ) (w : W) → (place.get (called args w)).args ≡ some args
  called-args args w =
      rw (place.get-put (record (place.get w) { args = some args; waker = none }) w) refl

  upcall_silent :
      (args : ℕ × ℕ × ℕ) (w : W)
      → (place.get w).waker ≡ none
      → shared_upcall place wake args w ≡ returns (tt, called args w)
  unfolding shared_upcall
  upcall_silent args w e = rw (e, shared_upcall) refl

  upcall_wakes :
      (args : ℕ × ℕ × ℕ) (w : W) (waker : ℕ)
      → (place.get w).waker ≡ some waker
      → shared_upcall place wake args w ≡ wake waker (called args w)
  unfolding shared_upcall
  upcall_wakes args w waker e = rw (e, shared_upcall) refl

  pub upcall-args :
      (args : ℕ × ℕ × ℕ) (w w' : W)
      → shared_upcall place wake args w ≡ returns (tt, w')
      → (place.get w').args ≡ some args
  upcall-args args w w' h = elim (Option-cases (place.get w).waker) [
    | inl e ↦
        let same : called args w ≡ w' = cc (upcall_silent args w e, h) in
        rw (← same) (called-args args w)
    | inr (waker, e) ↦
        rw (wakes waker (called args w) w' (cc (upcall_wakes args w waker e, h)))
          (called-args args w)
  ]

module _ {W V : Type 0} (raw : RawSyscalls W) (cfg : Config W) (driver_num subscribe_num : ℕ)
    (upcall_fcn upcall_data : ℕ) (place : Place W CallState) where
  call-starts :
      (op : Operation W V) (w v : W)
      → Call.begin raw cfg driver_num subscribe_num upcall_fcn upcall_data place op w
        ≡ returns (ok tt, v)
      → (place.get v).started ≡ true
  unfolding Call.begin
  call-starts op w v h =
      let (v1, e1) =
        step_ok (subscribe raw cfg driver_num subscribe_num upcall_fcn upcall_data) _ tt w v h in
      let (v2, e2) = step_ok op.start _ tt v1 v e1 in set_starts place v2 v e2

  -- A poll of a `Call` that is pending leaves the operation started and its upcall outstanding; the
  -- next poll then makes no system call, is pending again and changes only the stored waker.
  pub call_pending :
      (op : Operation W V) (waker waker' : ℕ) (w w' : W)
      → Call.poll raw cfg driver_num subscribe_num upcall_fcn upcall_data place op waker w
        ≡ returns (pending, w')
      → IsWaiting place op.complete w'
        × (Call.poll raw cfg driver_num subscribe_num upcall_fcn upcall_data place op waker' w'
            ≡ returns (pending, waiting place op.complete waker' w'))
  unfolding Call.poll
  call_pending op waker waker' w w' h =
      let begin = Call.begin raw cfg driver_num subscribe_num upcall_fcn upcall_data place op in
      let waits = poll_waits place op.complete begin waker w w' (call-starts op w) h in
      (waits, poll_of_waiting place op.complete begin waker' w' waits)

  -- After the upcall, whatever the state was before, a poll of a `Call` interprets the arguments of
  -- the upcall and is ready with the result. Waking a task leaves the future alone.
  pub call_ready :
      (wake : ℕ → Run W (Unit {0}))
      (wakes : (waker : ℕ) (v v' : W)
        → wake waker v ≡ returns (tt, v')
        → place.get v' ≡ place.get v)
      (op : Operation W V) (waker : ℕ) (args : ℕ × ℕ × ℕ) (w w' : W)
      → shared_upcall place wake args w ≡ returns (tt, w')
      → Call.poll raw cfg driver_num subscribe_num upcall_fcn upcall_data place op waker w'
        ≡ (op.complete args >>= λ r. pure (ready r)) w'
  unfolding Call.poll
  call_ready wake wakes op waker args w w' h =
      let begin = Call.begin raw cfg driver_num subscribe_num upcall_fcn upcall_data place op in
      poll_of_called place op.complete begin waker args w'
        (upcall-args place wake wakes args w w' h)

module _ {W V : Type 0} (raw : RawSyscalls W) (cfg : Config W)
    (driver_num subscribe_num buffer_num : ℕ) (upcall_fcn upcall_data address len : ℕ)
    (place : Place W CallState) (buffer : W → List ℕ) (op : BufferedOperation W V) where
  abbrev the_begin : Fallible W (Unit {0})
  the_begin =
      BufferedCall.begin raw cfg driver_num subscribe_num buffer_num upcall_fcn upcall_data address
        len place buffer op

  abbrev the_finish : ℕ × ℕ × ℕ → Fallible W V
  the_finish =
      BufferedCall.finish raw cfg driver_num subscribe_num buffer_num upcall_fcn upcall_data address
        len place buffer op

  abbrev the_poll : ℕ → Run W (Poll (Result V ErrorCode))
  the_poll =
      BufferedCall.poll raw cfg driver_num subscribe_num buffer_num upcall_fcn upcall_data address
        len place buffer op

  buffered-starts : (w v : W) → the_begin w ≡ returns (ok tt, v) → (place.get v).started ≡ true
  unfolding BufferedCall.begin
  buffered-starts w v h =
      let (v1, e1) = step_ok (allow_rw raw cfg driver_num buffer_num address len) _ tt w v h in
      let (v2, e2) =
        step_ok (subscribe raw cfg driver_num subscribe_num upcall_fcn upcall_data) _ tt v1 v e1 in
      let (v3, e3) = step_ok (op.start len) _ tt v2 v e2 in set_starts place v3 v e3

  -- A poll of a `BufferedCall` that is pending leaves the operation started and its upcall outstanding;
  -- the next poll then makes no system call, neither shares the buffer again nor takes it back, is
  -- pending again and changes only the stored waker.
  pub buffered_pending :
      (waker waker' : ℕ) (w w' : W)
      → the_poll waker w ≡ returns (pending, w')
      → IsWaiting place the_finish w'
        × (the_poll waker' w' ≡ returns (pending, waiting place the_finish waker' w'))
  unfolding BufferedCall.poll
  buffered_pending waker waker' w w' h =
      let waits = poll_waits place the_finish the_begin waker w w' (buffered-starts w) h in
      (waits, poll_of_waiting place the_finish the_begin waker' w' waits)

  -- After the upcall, a poll of a `BufferedCall` takes the buffer back from the kernel and only then
  -- interprets the arguments, on the bytes that the buffer holds when the kernel has given it up, and
  -- is ready with the result. Waking a task leaves the future alone.
  pub buffered_ready :
      (wake : ℕ → Run W (Unit {0}))
      (wakes : (waker : ℕ) (v v' : W)
        → wake waker v ≡ returns (tt, v')
        → place.get v' ≡ place.get v)
      (waker : ℕ) (args : ℕ × ℕ × ℕ) (w w' v v' : W) (r : Result V ErrorCode)
      → shared_upcall place wake args w ≡ returns (tt, w')
      → unallow_rw raw driver_num buffer_num w' ≡ returns (tt, v)
      → op.complete args (buffer v) v ≡ returns (r, v')
      → the_poll waker w' ≡ returns (ready r, v')
  unfolding BufferedCall.poll BufferedCall.finish
  buffered_ready wake wakes waker args w w' v v' r h gives completes =
      poll_of_called place the_finish the_begin waker args w'
        (upcall-args place wake wakes args w w' h)
      ∙ bind-returns (the_finish args) (λ r. pure (ready r)) {w = w'}
          (bind-returns (unallow_rw raw driver_num buffer_num) _ gives ∙ completes)
