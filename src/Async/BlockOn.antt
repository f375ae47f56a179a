-- ===== src/Async/BlockOn.antt =====
-- What `block_on` of async/src/lib.rs returns, and how much fuel is enough.
use libtock_rs.Common.{
  ℕ, zero, suc, ◌<◌, ◌≡◌, ◌∙◌, ap, pure, Option, some, returns, Run, ◌>>=◌, arith, bind-returns,
  returns-bind,
}
use libtock_rs.Platform.RawSyscalls.{RawSyscalls}
use libtock_rs.Platform.Syscalls.{yield_wait}
use libtock_rs.Platform.AsyncCall.{Poll, Future, ready, pending}
use libtock_rs.Async.{noop, block_on, ready_or}

module _ {W A : Type 0} (raw : RawSyscalls W) (future : Future W A) where
  -- So many polls that are pending, each followed by a yield, and then one that is ready.
  pub data Rounds : ℕ → A → W → W → Type 0 where
    last : (a : A) (w w' : W) → future.poll noop w ≡ returns (ready a, w') → Rounds 0 a w w'
    round :
        (n : ℕ) (a : A) (w v u w' : W)
        → future.poll noop w ≡ returns (pending, v)
        → yield_wait raw v ≡ returns (tt, u)
        → Rounds n a u w'
        → Rounds (suc n) a w w'

  abbrev on_poll : ℕ → Poll A → Run W (Option A)
  on_poll fuel = ready_or future (yield_wait raw >>= λ _. block_on raw fuel future)

  block_on_step :
      (fuel : ℕ) (p : Poll A) (w w' : W)
      → future.poll noop w ≡ returns (p, w')
      → block_on raw (suc fuel) future w ≡ on_poll fuel p w'
  unfolding block_on
  block_on_step fuel p w w' h = bind-returns (future.poll noop) (on_poll fuel) h

  ended :
      (fuel : ℕ) (a : A) (v w' : W)
      → future.drop v ≡ returns (tt, w')
      → on_poll fuel (ready a) v ≡ returns (some a, w')
  ended fuel a v w' drops = bind-returns future.drop (λ _. pure (some a)) drops

  -- `block_on` returns what the future is ready with, in the world that the future's drop leaves of that
  -- of the last poll, if more polls are allowed than are pending and the drop returns.
  pub block_on_returns :
      (fuel n : ℕ) (a : A) (w v w' : W)
      → Rounds n a w v
      → future.drop v ≡ returns (tt, w')
      → n < fuel
      → block_on raw fuel future w ≡ returns (some a, w')
  block_on_returns zero n a w v w' r drops h = absurd (omega arith)
  block_on_returns (suc fuel) zero a w v w' (last _ _ _ e) drops h =
      block_on_step fuel (ready a) w v e ∙ ended fuel a v w' drops
  block_on_returns (suc fuel) (suc n) a w v w' (round _ _ _ v1 u _ e y r) drops h =
      block_on_step fuel pending w v1 e
      ∙ bind-returns (yield_wait raw) (λ _. block_on raw fuel future) y
      ∙ block_on_returns fuel n a u v w' r drops (omega arith)

  -- The rounds that a `block_on` made, and the drop that followed them.
  abbrev Ran : ℕ → A → W → W → Type 0
  Ran fuel a w w' =
      (n : ℕ) × (v : W) × (n < fuel) × Rounds n a w v × (future.drop v ≡ returns (tt, w'))

  -- What one poll of a `block_on` that returns an output was, given the rest of the loop.
  polled :
      (fuel : ℕ) (p : Poll A) (a : A) (w v w' : W)
      → ((u : W) → block_on raw fuel future u ≡ returns (some a, w') → Ran fuel a u w')
      → future.poll noop w ≡ returns (p, v)
      → on_poll fuel p v ≡ returns (some a, w')
      → Ran (suc fuel) a w w'
  polled fuel (ready b) a w v w' later e e' =
      let (_, u, drops, e'') = returns-bind future.drop (λ _. pure (some b)) {w = v} e' in
      let same : b ≡ a = cc e'' in
      let here : u ≡ w' = cc e'' in
      (
        zero,
        v,
        omega arith,
        last a w v (e ∙ ap (λ x. returns (ready x, v)) same),
        drops ∙ ap (λ x. returns (tt, x)) here,
      )
  polled fuel pending a w v w' later e e' =
      let (_, u, y, e'') =
        returns-bind (yield_wait raw) (λ _. block_on raw fuel future) {w = v} e' in
      let (n, x, h, r, drops) = later u e'' in
      (suc n, x, omega arith, round n a w v u x e y r, drops)

  -- Whenever `block_on` returns an output, the polls before were pending with a yield after each,
  -- there were fewer of them than the fuel, the future's last poll was ready with this output, and the
  -- future was dropped after it, which left the world where `block_on` ends.
  pub block_on-Rounds :
      (fuel : ℕ) (a : A) (w w' : W)
      → block_on raw fuel future w ≡ returns (some a, w')
      → (n : ℕ) × (v : W) × (n < fuel) × Rounds n a w v × (future.drop v ≡ returns (tt, w'))
  unfolding block_on
  block_on-Rounds zero a w w' h = absurd (cc h)
  block_on-Rounds (suc fuel) a w w' h =
      let (p, v, e, e') = returns-bind (future.poll noop) (on_poll fuel) {w = w} h in
      polled fuel p a w v w' (λ u. block_on-Rounds fuel a u w') e e'
