-- ===== src/Apis/Blocking.antt =====
-- What the blocking calls under apis share: `share::scope` around a subscription, a command, and a loop
-- over `yield_wait` until the upcall has filled a cell. The loop is on fuel; `none` says that the fuel
-- is used up.
use libtock_rs.Common.{
  ℕ, zero, suc, Option, none, some, Result, ok, err, Run, returns, ◌>>=◌, ◌>>◌, pure,
}
use libtock_rs.Platform.ErrorCode.{ErrorCode}
use libtock_rs.Platform.RawSyscalls.{RawSyscalls}
use libtock_rs.Platform.Syscalls.{Fallible, yield_wait, unsubscribe}
use libtock_rs.Platform.Share.{scope}
use libtock_rs.Platform.AsyncCall.{Place}

abbrev pub Blocking : Type 0 → Type 0 → Type 0
Blocking W A = Run W (Option A)

module _ {W : Type 0} where
  -- `?` in a closure that waits.
  abbrev pub try_then :
      {A B : Type 0}
      → Result A ErrorCode
      → Blocking W (Result B ErrorCode)
      → Blocking W (Result B ErrorCode)
  try_then (err e) m = pure (some (err e))
  try_then (ok _) m = m

  -- `if let Ok(()) = … { … }`
  abbrev pub if_ok : Result (Unit {0}) ErrorCode → Blocking W (Unit {0}) → Blocking W (Unit {0})
  if_ok (err e) m = pure (some tt)
  if_ok (ok _) m = m

  -- What follows a loop that has ended.
  abbrev pub ended : {A : Type 0} → Option (Unit {0}) → Run W A → Blocking W A
  ended none m = pure none
  ended (some _) m = m >>= λ a. pure (some a)

  module _ {V : Type 0} (cell : Place W (Option V)) where
    -- `Cell::new(None)`
    abbrev pub new_cell : Run W (Unit {0})
    new_cell w = returns (tt, cell.put none w)

    -- `match cell.get() { None => …, Some(v) => … }`
    abbrev pub result_of_cell :
        {A : Type 0} → Result A ErrorCode → (V → Result A ErrorCode) → Run W (Result A ErrorCode)
    result_of_cell otherwise f w = elim (cell.get w) [
      | none ↦ returns (otherwise, w)
      | some v ↦ returns (f v, w)
    ]

    -- `if let Some(v) = cell.get() { return … }`
    abbrev pub return_if_called : Blocking W V → Blocking W V
    return_if_called more w = elim (cell.get w) [ none ↦ more w | some v ↦ returns (some v, w) ]

    module _ (raw : RawSyscalls W) where
      -- `loop { S::yield_wait(); if let Some(v) = cell.get() { … } }`
      unfoldable pub yield_until_called : ℕ → Blocking W V
      yield_until_called zero = pure none
      yield_until_called (suc fuel) =
          yield_wait raw >>= λ _. return_if_called (yield_until_called fuel)

      -- `while cell.get().is_none() { S::yield_wait(); }`
      unfoldable pub wait_while_none : ℕ → Blocking W (Unit {0})
      wait_while_none zero w = elim (cell.get w) [
        | none ↦ returns (none, w)
        | some _ ↦ returns (some tt, w)
      ]
      wait_while_none (suc fuel) w = elim (cell.get w) [
        | none ↦ (yield_wait raw >>= λ _. wait_while_none fuel) w
        | some _ ↦ returns (some tt, w)
      ]

      module _ {A : Type 0} (otherwise : Result A ErrorCode) (f : V → Result A ErrorCode)
          (fuel driver_num : ℕ) (start : Fallible W (Unit {0})) where
        -- The steps of a closure with `?`, behind the registration and the start.
        abbrev pub read_waited : Option (Unit {0}) → Blocking W (Result A ErrorCode)
        read_waited waited = ended waited (result_of_cell otherwise f)

        abbrev pub try_wait : Result (Unit {0}) ErrorCode → Blocking W (Result A ErrorCode)
        try_wait started = try_then started (wait_while_none fuel >>= read_waited)

        abbrev pub try_start : Result (Unit {0}) ErrorCode → Blocking W (Result A ErrorCode)
        try_start registered = try_then registered (start >>= try_wait)

        -- A scope that subscribes, starts, waits, and returns what the cell says, or the first error.
        unfoldable pub wait_or_fail : Fallible W (Unit {0}) → Blocking W (Result A ErrorCode)
        unfolding scope wait_while_none
        wait_or_fail register = do
          new_cell
          scope (unsubscribe raw driver_num 0) (register >>= try_start)

        -- The steps of a closure with `if let Ok(())`.
        abbrev pub wait_if_started : Result (Unit {0}) ErrorCode → Blocking W (Unit {0})
        wait_if_started started = if_ok started (wait_while_none fuel)

        abbrev pub start_if_registered : Result (Unit {0}) ErrorCode → Blocking W (Unit {0})
        start_if_registered registered = if_ok registered (start >>= wait_if_started)

        -- A scope that subscribes, starts, and waits where that succeeded, and after it what the cell
        -- says.
        unfoldable pub wait_if_ok : Fallible W (Unit {0}) → Blocking W (Result A ErrorCode)
        unfolding scope wait_while_none
        wait_if_ok register = do
          new_cell
          waited ← scope (unsubscribe raw driver_num 0) (register >>= start_if_registered)
          read_waited waited
