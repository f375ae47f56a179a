-- ===== src/Apis/Alarm.antt =====
-- apis/peripherals/alarm/src/lib.rs, over any raw system calls. `Hz`, `Ticks` and `Milliseconds` are
-- numbers; the future `Sleep` is the `Call` of platform/src/async_call.rs with the operation
-- `sleep_op`.
pub mod Ticks
use libtock_rs.Common.{
  ℕ, zero, suc, ◌+◌, ◌*◌, ◌/◌, ◌%◌, ◌-◌, ◌^◌, ltb, ◌==◌, if◌then◌else◌, Option, none, some, Result,
  ok, err, Run, ◌>>=◌, ◌>>◌, pure, returns, panic,
}
use libtock_rs.Platform.ErrorCode.{ErrorCode}
use libtock_rs.Platform.RawSyscalls.{RawSyscalls}
use libtock_rs.Platform.CommandReturn.Data.{to_result, success_unit, success_u32, failure_code}
use libtock_rs.Platform.AsyncCall.Call.{Operation}
use libtock_rs.Platform.AsyncCall.{Place}
use libtock_rs.Platform.Share.{scope}
use libtock_rs.Platform.Syscalls.{Config, Fallible, command, subscribe, unsubscribe}
use libtock_rs.Apis.Blocking.{Blocking, try_then, new_cell, yield_until_called}

abbrev pub driver_num : ℕ
driver_num = 0

abbrev pub exists_command : ℕ
exists_command = 0

abbrev pub frequency_command : ℕ
frequency_command = 1

abbrev pub time_command : ℕ
time_command = 2

abbrev pub stop_command : ℕ
stop_command = 3

abbrev pub set_relative_command : ℕ
set_relative_command = 5

abbrev pub callback : ℕ
callback = 0

-- `u32::saturating_mul`
abbrev pub saturating_mul : ℕ → ℕ → ℕ
saturating_mul a b = if ltb (a * b) (2 ^ 32) then a * b else 2 ^ 32 - 1

unfoldable pub div_ceil : ℕ → ℕ → ℕ
div_ceil a other = let d = a / other in if a % other == 0 then d else d + 1

-- `Milliseconds::to_ticks`
unfoldable pub to_ticks : ℕ → ℕ → ℕ
unfolding div_ceil
to_ticks milliseconds freq = div_ceil (saturating_mul milliseconds freq) 1000

-- `map(|_when: u32| ())` on a result.
abbrev pub forget : {A : Type 0} → Result A ErrorCode → Result (Unit {0}) ErrorCode
forget (ok _) = ok tt
forget (err e) = err e

module _ {W : Type 0} (raw : RawSyscalls W) where
  unfoldable pub exists : Fallible W (Unit {0})
  exists = do
    r ← command raw driver_num exists_command 0 0
    pure (to_result success_unit failure_code r)

  unfoldable pub get_frequency : Fallible W ℕ
  get_frequency = do
    r ← command raw driver_num frequency_command 0 0
    pure (to_result success_u32 failure_code r)

  unfoldable pub get_ticks : Fallible W ℕ
  get_ticks = do
    r ← command raw driver_num time_command 0 0
    pure (to_result success_u32 failure_code r)

  -- `ticks.saturating_div(freq / 1000)`, where a division by zero panics.
  abbrev pub divided : ℕ → ℕ → Fallible W ℕ
  divided ticks freq = if freq / 1000 == 0 then panic else pure (ok (ticks / (freq / 1000)))

  abbrev pub with_frequency : ℕ → Result ℕ ErrorCode → Fallible W ℕ
  with_frequency ticks (err e) = pure (err e)
  with_frequency ticks (ok freq) = divided ticks freq

  abbrev pub with_ticks : Result ℕ ErrorCode → Fallible W ℕ
  with_ticks (err e) = pure (err e)
  with_ticks (ok ticks) = get_frequency >>= with_frequency ticks

  unfoldable pub get_milliseconds : Fallible W ℕ
  unfolding get_ticks get_frequency
  get_milliseconds = get_ticks >>= with_ticks

  -- `SleepOp`, with its field `ticks`.
  abbrev pub sleep_op : ℕ → Operation W (Unit {0})
  sleep_op ticks = record {
    start = do
      r ← command raw driver_num set_relative_command ticks 0
      pure (forget (to_result success_u32 failure_code r));
    cancel = do
      r ← command raw driver_num stop_command 0 0
      pure tt;
    complete = λ args. pure (ok tt);
  }

  -- The future of `sleep_for_async`: its operation. `to_ticks` is that of the time.
  abbrev pub sleeping : (ℕ → ℕ) → Result ℕ ErrorCode → Fallible W (Operation W (Unit {0}))
  sleeping to_ticks (err e) = pure (err e)
  sleeping to_ticks (ok freq) = pure (ok (sleep_op (to_ticks freq)))

  unfoldable pub sleep_for_async : (ℕ → ℕ) → Fallible W (Operation W (Unit {0}))
  unfolding get_frequency
  sleep_for_async to_ticks = get_frequency >>= sleeping to_ticks

  -- The upcall of a cell of two arguments.
  abbrev pub when_upcall : Place W (Option (ℕ × ℕ)) → ℕ × ℕ × ℕ → Run W (Unit {0})
  when_upcall called args w = returns (tt, called.put (some (args.0, args.1)) w)

  module _ (cfg : Config W) (fcn payload fuel : ℕ) (called : Place W (Option (ℕ × ℕ))) where
    abbrev pub slept : Option (ℕ × ℕ) → Blocking W (Result (Unit {0}) ErrorCode)
    slept none = pure none
    slept (some _) = pure (some (ok tt))

    -- The steps of the closure of `sleep_for` behind each `?`.
    abbrev pub await_alarm : Result (Unit {0}) ErrorCode → Blocking W (Result (Unit {0}) ErrorCode)
    await_alarm set = try_then set (yield_until_called called raw fuel >>= slept)

    abbrev pub set_alarm :
        ℕ → Result (Unit {0}) ErrorCode → Blocking W (Result (Unit {0}) ErrorCode)
    set_alarm ticks subscribed = try_then subscribed ((sleep_op ticks).start >>= await_alarm)

    -- `sleep_for` behind the query of the frequency.
    unfoldable pub sleep_ticks : ℕ → Blocking W (Result (Unit {0}) ErrorCode)
    unfolding scope yield_until_called
    sleep_ticks ticks = do
      new_cell called
      scope (unsubscribe raw driver_num 0)
          (subscribe raw cfg driver_num 0 fcn payload >>= set_alarm ticks)

    abbrev pub with_freq : (ℕ → ℕ) → Result ℕ ErrorCode → Blocking W (Result (Unit {0}) ErrorCode)
    with_freq to_ticks (err e) = pure (some (err e))
    with_freq to_ticks (ok freq) = sleep_ticks (to_ticks freq)

    unfoldable pub sleep_for : (ℕ → ℕ) → Blocking W (Result (Unit {0}) ErrorCode)
    unfolding get_frequency sleep_ticks
    sleep_for to_ticks = get_frequency >>= with_freq to_ticks
