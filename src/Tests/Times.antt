-- ===== src/Tests/Times.antt =====
-- Tests of apis/peripherals/alarm/src/lib.rs.
use libtock_rs.Common.{
  ℕ, ◌%◌, ok, returns, ◌+◌, ◌*◌, ◌<◌, ◌≤◌, ◌≡◌, refl, ◌==◌, if◌then◌else◌, panics, pure, arith,
}
use libtock_rs.Platform.ReturnVariant
use libtock_rs.Platform.CommandReturn.{raw_values}
use libtock_rs.Platform.CommandReturn.Data.{to_result}
use libtock_rs.Platform.RawSyscalls.{RawSyscalls, no_upcall}
use libtock_rs.Platform.Syscalls.{command, command_result}
use libtock_rs.Apis.Alarm.{to_ticks, get_ticks, get_frequency, get_milliseconds}
use libtock_rs.Apis.Alarm.Ticks.{to_ticks_rounds, to_ticks_short, get_milliseconds_bounds}

-- A kernel whose alarm has this frequency and has counted so many ticks.
abbrev kernel : ℕ → ℕ → RawSyscalls (Unit {0})
kernel freq ticks = record {
  yield1 = λ r0. pure tt;
  yield2 = λ r0. pure no_upcall;
  syscall1 = λ class r0. pure (0, 0);
  syscall2 = λ class r0 r1. pure (0, 0);
  syscall4 = λ class r0 r1 r2 r3.
      pure (ReturnVariant.success_u32, (if r1 == 1 then freq else ticks), 0, 0);
}

to_ticks_rounds_example :
    (3 * 32768 ≤ to_ticks 3 32768 * 1000) × (to_ticks 3 32768 * 1000 < 3 * 32768 + 1000)
to_ticks_rounds_example = to_ticks_rounds 3 32768 (omega arith)

-- Ten seconds at 1 MHz become less than 4.3 seconds.
to_ticks_short_example :
    (to_ticks 10000 1000000 ≡ 4294968) × (to_ticks 10000 1000000 * 1000 < 10000 * 1000000)
to_ticks_short_example = to_ticks_short 10000 1000000 (omega arith)

-- 70000 ticks at 32768 Hz are more than 2136 milliseconds, but read as 2187.
get_milliseconds_bounds_example :
    (32768 < 1000 → get_milliseconds (kernel 32768 70000) tt ≡ panics)
    × (1000 ≤ 32768
        → (milliseconds : ℕ) × (get_milliseconds (kernel 32768 70000) tt
            ≡ returns (ok milliseconds, tt))
          × (70000 * 1000 + (milliseconds + 1) * (32768 % 1000) < (milliseconds + 1) * 32768)
          × (milliseconds * 32768 ≤ 70000 * 1000 + milliseconds * (32768 % 1000)))
get_milliseconds_bounds_example =
    get_milliseconds_bounds (kernel 32768 70000) tt tt tt 70000 32768 0 0 0 0 refl refl
      (omega arith) (omega arith)

reads_2187 : get_milliseconds (kernel 32768 70000) tt ≡ returns (ok 2187, tt)
unfolding get_milliseconds get_ticks get_frequency command command_result to_result raw_values
reads_2187 = refl

-- At 999 Hz there is no whole kilohertz to divide by.
slow_panics : get_milliseconds (kernel 999 5000) tt ≡ panics
unfolding get_milliseconds get_ticks get_frequency command command_result to_result raw_values
slow_panics = refl
