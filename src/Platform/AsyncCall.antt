-- ===== src/Platform/AsyncCall.antt =====
-- platform/src/async_call.rs: futures over one upcall.
--
-- A future and what it owns stay at one place in memory, into which the kernel has a pointer: the
-- world holds their state, and `Place` reads and writes it there. A waker is the number of the
-- task that it wakes (`will_wake` compares these); waking is what the executor does in the world. The
-- methods of an operation are code of the driver.
pub mod Call
pub mod BufferedCall
pub mod Polls
pub mod States
use libtock_rs.Common.{
  ℕ, Bool, true, false, ◌==◌, if◌then◌else◌, Option, none, some, List, length, Result, ok, err,
  Outcome, returns, panics, exits, Run, ◌>>=◌, ◌>>◌, pure, ◌≡◌,
}
use libtock_rs.Platform.ErrorCode.{ErrorCode}
use libtock_rs.Platform.Syscalls.{Fallible}

pub data Poll (A : Type 0) : Type 0 where
  ready : A → Poll A
  pending : Poll A

-- A future: its `poll`, given a waker, and its `Drop`. Its state is part of the world.
pub record Future (W A : Type 0) : Type 0 where
  pub poll : ℕ → Run W (Poll A)
  pub drop : Run W (Unit {0})

-- A part of the world that is read and written on its own.
pub record Place (W S : Type 0) : Type 0 where
  pub get : W → S
  pub put : S → W → W
  pub get-put : (s : S) (w : W) → get (put s w) ≡ s

-- `Shared`, and the field `started` of both futures.
pub record CallState : Type 0 where
  pub args : Option (ℕ × ℕ × ℕ)
  pub waker : Option ℕ
  pub started : Bool

-- `Call::new` and `BufferedCall::new`
abbrev pub new_state : CallState
new_state = record { args = none; waker = none; started = false }

-- `Shared::store_waker`
unfoldable pub store_waker : ℕ → CallState → CallState
store_waker waker s = record s { waker = stored s.waker }
  where
    stored : Option ℕ → Option ℕ
    stored none = some waker
    stored (some existing) = if existing == waker then some existing else some waker

abbrev pub set_started : CallState → CallState
set_started s = record s { started = true }

-- `?` on the result of a call.
abbrev pub and_then : {W A B : Type 0} → Result A ErrorCode → Fallible W B → Fallible W B
and_then (err e) m = pure (err e)
and_then (ok _) m = m

module _ {W : Type 0} (place : Place W CallState) where
  abbrev pub modify : (CallState → CallState) → Run W (Unit {0})
  modify f w = returns (tt, place.put (f (place.get w)) w)

  -- `Shared::upcall`, where waking a task is `wake`.
  unfoldable pub shared_upcall : (ℕ → Run W (Unit {0})) → ℕ × ℕ × ℕ → Run W (Unit {0})
  shared_upcall wake args w =
      let s = place.get w in
      let w' = place.put (record s { args = some args; waker = none }) w in
      elim s.waker [ none ↦ returns (tt, w') | some waker ↦ wake waker w' ]

  -- The beginning of both `poll`s, where `begin` subscribes and starts and `finish` interprets the
  -- arguments of the upcall.
  unfoldable pub poll_args :
      {V : Type 0}
      → (ℕ × ℕ × ℕ → Fallible W V)
      → Run W (Poll (Result V ErrorCode))
      → Run W (Poll (Result V ErrorCode))
  poll_args finish otherwise w = elim (place.get w).args [
    | none ↦ otherwise w
    | some args ↦ (finish args >>= λ r. pure (ready r)) w
  ]

  -- The end of both: the waker is stored and the arguments are read again.
  unfoldable pub poll_end :
      {V : Type 0} → (ℕ × ℕ × ℕ → Fallible W V) → ℕ → Run W (Poll (Result V ErrorCode))
  unfolding poll_args store_waker
  poll_end finish waker = do modify (store_waker waker); poll_args finish (pure pending)

  abbrev pub begun :
      {V : Type 0}
      → (ℕ × ℕ × ℕ → Fallible W V)
      → ℕ
      → Result (Unit {0}) ErrorCode
      → Run W (Poll (Result V ErrorCode))
  begun finish waker (err e) = pure (ready (err e))
  begun finish waker (ok _) = poll_end finish waker

  abbrev pub unfinished :
      {V : Type 0}
      → (ℕ × ℕ × ℕ → Fallible W V)
      → Fallible W (Unit {0})
      → ℕ
      → Run W (Poll (Result V ErrorCode))
  unfinished finish begin waker w =
      if (place.get w).started then poll_end finish waker w else (begin >>= begun finish waker) w

  unfoldable pub poll_with :
      {V : Type 0}
      → (ℕ × ℕ × ℕ → Fallible W V)
      → Fallible W (Unit {0})
      → ℕ
      → Run W (Poll (Result V ErrorCode))
  unfolding poll_args poll_end
  poll_with finish begin waker = poll_args finish (unfinished finish begin waker)

  -- `Drop` of both futures up to their fields: an operation that is outstanding is cancelled.
  unfoldable pub drop_with : Run W (Unit {0}) → Run W (Unit {0})
  drop_with cancel w = elim (place.get w).args [
    | none ↦ if (place.get w).started then cancel w else returns (tt, w)
    | some _ ↦ returns (tt, w)
  ]
