-- ===== src/Async.antt =====
-- async/src/lib.rs: the executor `block_on`, and `join` and `select`.
--
-- `block_on` runs on fuel, one unit for each poll, and its result is `none` where the fuel runs out. A
-- panic ends the run, without the drops of the unwinding.
pub mod BlockOn
pub mod Join
use libtock_rs.Common.{
  ℕ, zero, suc, Bool, true, if◌then◌else◌, Option, none, some, Run, ◌>>=◌, ◌>>◌, pure, returns,
  panics, Outcome,
}
use libtock_rs.Platform.RawSyscalls.{RawSyscalls}
use libtock_rs.Platform.Syscalls.{yield_wait}
use libtock_rs.Platform.AsyncCall.{Poll, ready, pending, Place, Future}

-- The number of `Waker::noop()`.
abbrev pub noop : ℕ
noop = 0

-- The end of one round of `block_on`: it owns the future, which is dropped when it returns.
abbrev pub ready_or : {W A : Type 0} → Future W A → Run W (Option A) → Poll A → Run W (Option A)
ready_or future rest (ready output) = do future.drop; pure (some output)
ready_or future rest pending = rest

unfoldable pub block_on : {W A : Type 0} → RawSyscalls W → ℕ → Future W A → Run W (Option A)
block_on raw zero future = pure none
block_on raw (suc fuel) future =
    let rest = block_on raw fuel future in
    do p ← future.poll noop; ready_or future (do yield_wait raw; rest) p

-- A future that an `async fn` returns, whose body is polled in one place: `drops` is what it drops when
-- it returns, or when it is dropped before it has. Whether it has returned is a part of the world;
-- a poll after that panics. Rust leaves open in which order the arguments are dropped before the first
-- poll; here it is that of `drops`.
module _ {W A : Type 0} (returned : Place W Bool) (drops : Run W (Unit {0})) where
  abbrev pub return_when_ready : Poll A → Run W (Poll A)
  return_when_ready (ready output) = do drops; λ w. returns (ready output, returned.put true w)
  return_when_ready pending = pure pending

  abbrev pub async_fn : (ℕ → Run W (Poll A)) → Future W A
  async_fn body = record {
    poll = λ waker w. if returned.get w then panics else (body waker >>= return_when_ready) w;
    drop = λ w. if returned.get w then returns (tt, w) else drops w;
  }

-- Both arguments are pinned in the function's frame, and dropped in the reverse order.
abbrev pub drop_both : {W A B : Type 0} → Future W A → Future W B → Run W (Unit {0})
drop_both a b = do b.drop; a.drop

pub data Either (A B : Type 0) : Type 0 where
  left : A → Either A B
  right : B → Either A B

-- The closure of `select`: what one poll does before the function returns.
unfoldable pub select_poll :
    {W A B : Type 0} → Future W A → Future W B → ℕ → Run W (Poll (Either A B))
select_poll {W} {A} {B} a b waker = a.poll waker >>= first
  where
    second : Poll B → Run W (Poll (Either A B))
    second (ready output) = pure (ready (right output))
    second pending = pure pending

    first : Poll A → Run W (Poll (Either A B))
    first (ready output) = pure (ready (left output))
    first pending = b.poll waker >>= second

-- `select`: both futures, the loser as well, are dropped when it returns.
unfoldable pub select :
    {W A B : Type 0} → Place W Bool → Future W A → Future W B → Future W (Either A B)
unfolding select_poll
select returned a b = async_fn returned (drop_both a b) (select_poll a b)

-- The locals of `join` that its `poll_fn` owns.
abbrev pub Done : Type 0 → Type 0 → Type 0
Done A B = Option A × Option B

module _ {W A B : Type 0} (place : Place W (Done A B)) where
  -- `if a_done.is_none() { if let Poll::Ready(output) = … { a_done = Some(output) } }`
  abbrev pub poll_first : Future W A → ℕ → Run W (Unit {0})
  poll_first a waker w = elim (place.get w).0 [
    | some _ ↦ returns (tt, w)
    | none ↦ (a.poll waker >>= store) w
  ]
    where
      store : Poll A → Run W (Unit {0})
      store (ready output) v = returns (tt, place.put (some output, (place.get v).1) v)
      store pending v = returns (tt, v)

  abbrev pub poll_second : Future W B → ℕ → Run W (Unit {0})
  poll_second b waker w = elim (place.get w).1 [
    | some _ ↦ returns (tt, w)
    | none ↦ (b.poll waker >>= store) w
  ]
    where
      store : Poll B → Run W (Unit {0})
      store (ready output) v = returns (tt, place.put ((place.get v).0, some output) v)
      store pending v = returns (tt, v)

  -- The `match` on what `take` takes out of both.
  abbrev pub join_end : Run W (Poll (A × B))
  join_end w = taken (place.get w)
    where
      taken : Done A B → Outcome (Poll (A × B) × W)
      taken (some first, some second) = returns (ready (first, second), place.put (none, none) w)
      taken (first, second) = returns (pending, place.put (first, second) w)

  -- The closure of `join`.
  unfoldable pub join_poll : Future W A → Future W B → ℕ → Run W (Poll (A × B))
  join_poll a b waker = do poll_first a waker; poll_second b waker; join_end

  unfoldable pub join : Place W Bool → Future W A → Future W B → Future W (A × B)
  unfolding join_poll
  join returned a b = async_fn returned (drop_both a b) (join_poll a b)
