-- ===== src/Platform/AsyncCall/Polls.antt =====
-- What the states of a future of platform/src/async_call.rs mean to `poll`.
use libtock_rs.Common.{
  bind-returns, ℕ, true, false, none, some, Result, ok, err, returns, Run, ◌>>=◌, pure, ◌≡◌, refl,
  returns-bind, ◌∙◌, Option-cases, Bool-cases, inl, inr,
}
use libtock_rs.Platform.ErrorCode.{ErrorCode}
use libtock_rs.Platform.Syscalls.{Fallible}
use libtock_rs.Platform.AsyncCall.{
  Poll, ready, pending, Place, CallState, store_waker, poll_args, poll_end, poll_with, unfinished,
  begun, modify, set_started, and_then,
}

module _ {W V : Type 0} (place : Place W CallState) (finish : ℕ × ℕ × ℕ → Fallible W V) where
  -- The world in which the waker is stored.
  abbrev pub waiting : ℕ → W → W
  waiting waker w = place.put (store_waker waker (place.get w)) w

  -- A future that waits: its operation has started and its upcall has not come.
  abbrev pub IsWaiting : W → Type 0
  IsWaiting w = ((place.get w).started ≡ true) × ((place.get w).args ≡ none)

  args_some :
      (m : Run W (Poll (Result V ErrorCode))) (w : W) (args : ℕ × ℕ × ℕ)
      → (place.get w).args ≡ some args
      → poll_args place finish m w ≡ (finish args >>= λ r. pure (ready r)) w
  unfolding poll_args
  args_some m w args h = rw (h, poll_args) refl

  args_none :
      (m : Run W (Poll (Result V ErrorCode))) (w : W)
      → (place.get w).args ≡ none
      → poll_args place finish m w ≡ m w
  unfolding poll_args
  args_none m w h = rw (h, poll_args) refl

  waiting-state :
      (waker : ℕ) (w : W) → place.get (waiting waker w) ≡ store_waker waker (place.get w)
  waiting-state waker w = place.get-put (store_waker waker (place.get w)) w

  waiting-args : (waker : ℕ) (w : W) → (place.get (waiting waker w)).args ≡ (place.get w).args
  waiting-args waker w = rw (waiting-state waker w) (unfold store_waker in refl)

  waiting-started :
      (waker : ℕ) (w : W) → (place.get (waiting waker w)).started ≡ (place.get w).started
  waiting-started waker w = rw (waiting-state waker w) (unfold store_waker in refl)

  end_steps :
      (waker : ℕ) (w : W)
      → poll_end place finish waker w ≡ poll_args place finish (pure pending) (waiting waker w)
  unfolding poll_end
  end_steps waker w = refl

  -- Nothing of what interprets the arguments is pending.
  not_pending :
      (m : Fallible W V) (w w' : W) → ¬ ((m >>= λ r. pure (ready r)) w ≡ returns (pending, w'))
  not_pending m w w' h = let (a, v, e, e') = returns-bind m (λ r. pure (ready r)) h in cc e'

  args_pending :
      (m : Run W (Poll (Result V ErrorCode))) (w w' : W)
      → poll_args place finish m w ≡ returns (pending, w')
      → ((place.get w).args ≡ none) × (m w ≡ returns (pending, w'))
  args_pending m w w' h = elim (Option-cases (place.get w).args) [
    | inl e ↦ (e, cc (args_none m w e, h))
    | inr (args, e) ↦ absurd (not_pending (finish args) w w' (cc (args_some m w args e, h)))
  ]

  end_pending :
      (waker : ℕ) (w w' : W)
      → poll_end place finish waker w ≡ returns (pending, w')
      → ((place.get w).args ≡ none) × (w' ≡ waiting waker w)
  end_pending waker w w' h =
      let (e, e') = args_pending (pure pending) (waiting waker w) w' (cc (end_steps waker w, h)) in
      (cc (waiting-args waker w, e), cc e')

  unfinished_started :
      (begin : Fallible W (Unit {0})) (waker : ℕ) (w : W)
      → (place.get w).started ≡ true
      → unfinished place finish begin waker w ≡ poll_end place finish waker w
  unfinished_started begin waker w h = rw (h, unfinished) refl

  unfinished_new :
      (begin : Fallible W (Unit {0})) (waker : ℕ) (w : W)
      → (place.get w).started ≡ false
      → unfinished place finish begin waker w ≡ (begin >>= begun place finish waker) w
  unfinished_new begin waker w h = rw (h, unfinished) refl

  end_waits :
      (waker : ℕ) (w w' : W)
      → (place.get w).started ≡ true
      → poll_end place finish waker w ≡ returns (pending, w')
      → IsWaiting w'
  end_waits waker w w' h e =
      let (a, e') = end_pending waker w w' e in
      rw (e') (waiting-started waker w ∙ h, waiting-args waker w ∙ a)

  begun_waits :
      (r : Result (Unit {0}) ErrorCode) (waker : ℕ) (w w' : W)
      → (r ≡ ok tt → (place.get w).started ≡ true)
      → begun place finish waker r w ≡ returns (pending, w')
      → IsWaiting w'
  begun_waits (err x) waker w w' h e = absurd (cc e)
  begun_waits (ok tt) waker w w' h e = end_waits waker w w' (h refl) e

  pub poll_waits :
      (begin : Fallible W (Unit {0})) (waker : ℕ) (w w' : W)
      → ((v : W) → begin w ≡ returns (ok tt, v) → (place.get v).started ≡ true)
      → poll_with place finish begin waker w ≡ returns (pending, w')
      → IsWaiting w'
  unfolding poll_with
  poll_waits begin waker w w' starts h =
      let (_, e) = args_pending (unfinished place finish begin waker) w w' h in
      elim (Bool-cases (place.get w).started) [
        | inl s ↦ end_waits waker w w' s (cc (unfinished_started begin waker w s, e))
        | inr s ↦
            let (r, v, eb, e') =
              returns-bind begin (begun place finish waker) {w = w}
                (cc (unfinished_new begin waker w s, e)) in
            begun_waits r waker v w' (λ hr. starts v (cc (eb, hr))) e'
      ]

  pub poll_of_waiting :
      (begin : Fallible W (Unit {0})) (waker : ℕ) (w : W)
      → IsWaiting w
      → poll_with place finish begin waker w ≡ returns (pending, waiting waker w)
  unfolding poll_with
  poll_of_waiting begin waker w (s, a) =
      args_none (unfinished place finish begin waker) w a
      ∙ unfinished_started begin waker w s
      ∙ end_steps waker w
      ∙ args_none (pure pending) (waiting waker w) (waiting-args waker w ∙ a)

  pub poll_of_new :
      (begin : Fallible W (Unit {0})) (waker : ℕ) (w v : W)
      → (place.get w).args ≡ none
      → (place.get w).started ≡ false
      → begin w ≡ returns (ok tt, v)
      → (place.get v).args ≡ none
      → poll_with place finish begin waker w ≡ returns (pending, waiting waker v)
  unfolding poll_with
  poll_of_new begin waker w v a s run a' =
      args_none (unfinished place finish begin waker) w a
      ∙ unfinished_new begin waker w s
      ∙ bind-returns begin (begun place finish waker) run
      ∙ end_steps waker v
      ∙ args_none (pure pending) (waiting waker v) (waiting-args waker v ∙ a')

  pub poll_of_called :
      (begin : Fallible W (Unit {0})) (waker : ℕ) (args : ℕ × ℕ × ℕ) (w : W)
      → (place.get w).args ≡ some args
      → poll_with place finish begin waker w ≡ (finish args >>= λ r. pure (ready r)) w
  unfolding poll_with
  poll_of_called begin waker args w a = args_some (unfinished place finish begin waker) w args a

-- Starting a future sets `started` last, and only where each call before returned `Ok`.
module _ {W : Type 0} where
  and_then-ok :
      {A B : Type 0} (r : Result A ErrorCode) (m : Fallible W B) (b : B) (w w' : W)
      → and_then r m w ≡ returns (ok b, w')
      → m w ≡ returns (ok b, w')
  and_then-ok (ok a) m b w w' h = h
  and_then-ok (err x) m b w w' h = absurd (cc h)

  pub step_ok :
      {A B : Type 0} (m : Fallible W A) (n : Fallible W B) (b : B) (w w' : W)
      → (m >>= λ r. and_then r n) w ≡ returns (ok b, w')
      → (v : W) × (n v ≡ returns (ok b, w'))
  step_ok m n b w w' h =
      let (r, v, e, e') = returns-bind m (λ r. and_then r n) {w = w} h in
      (v, and_then-ok r n b v w' e')

module _ {W : Type 0} (place : Place W CallState) where
  abbrev started_ok : Unit {0} → Fallible W (Unit {0})
  started_ok _ = pure (ok tt)

  pub set_starts :
      (w w' : W)
      → (modify place set_started >>= started_ok) w ≡ returns (ok tt, w')
      → (place.get w').started ≡ true
  set_starts w w' h =
      let (a, v, e, e') = returns-bind (modify place set_started) started_ok {w = w} h in
      let same : place.put (set_started (place.get w)) w ≡ w' = cc (e, e') in
      rw (← same, place.get-put (set_started (place.get w)) w) refl
