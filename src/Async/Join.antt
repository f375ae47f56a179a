-- ===== src/Async/Join.antt =====
-- Which futures `join` of async/src/lib.rs polls.
use libtock_rs.Common.{ℕ, ◌≡◌, refl, some, Outcome, returns, ◌>>◌, ap, panics, exits}
use libtock_rs.Platform.AsyncCall.{Poll, Place, Future}
use libtock_rs.Async.{Done, poll_first, poll_second, join_end, join_poll}

module _ {W A B : Type 0} (place : Place W (Done A B)) where
  first_done :
      (a : Future W A) (waker : ℕ) (x : A) (w : W)
      → (place.get w).0 ≡ some x
      → poll_first place a waker w ≡ returns (tt, w)
  first_done a waker x w h = rw (h, poll_first) refl

  -- Once the first future of a `join` has been ready, the closure of `join` does not poll it again:
  -- with any other future in its place the poll is the same.
  pub join_skips_first :
      (a a' : Future W A) (b : Future W B) (waker : ℕ) (x : A) (w : W)
      → (place.get w).0 ≡ some x
      → join_poll place a b waker w ≡ join_poll place a' b waker w
  unfolding join_poll
  join_skips_first a a' b waker x w h = cc (skip a, skip a')
    where
      skip :
          (c : Future W A)
          → (poll_first place c waker >> (poll_second place b waker >> join_end place)) w
            ≡ (poll_second place b waker >> join_end place) w
      skip c =
          ap
            (λ o.
              let p : Outcome (Poll (A × B) × W) = (elim o as (λ _. Outcome (Poll (A × B) × W)) [
                | panics ↦ panics
                | exits e ↦ exits e
                | returns (u, v) ↦ (poll_second place b waker >> join_end place) v
              ]) in
              p)
            (first_done c waker x w h)
