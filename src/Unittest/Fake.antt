-- ===== src/Unittest/Fake.antt =====
-- `fake::Syscalls` of unittest/src/fake/syscalls/mod.rs: the fake kernel as the raw system calls of
-- platform/src/raw_syscalls.rs, so that the calls of platform/src/syscalls_impl.rs run on it.
pub mod Command
pub mod Unsubscribe
pub mod Drop
pub mod BlockOn
pub mod Leds
pub mod Alarm
pub mod Results
pub mod Allows
pub mod Lists
pub mod Subscribed
pub mod Reading
pub mod Sensor
pub mod Buttons
pub mod Gpio
pub mod Adc
pub mod Proximity
pub mod Console
pub mod KeyValue
pub mod Buzzer
pub mod LowLevelDebug
use libtock_rs.Platform.RawSyscalls.{RawSyscalls}
use libtock_rs.Unittest.World.{World, Env}
use libtock_rs.Unittest.Syscalls.Raw

-- `impl RawSyscalls for fake::Syscalls`
abbrev pub fake_syscalls : {H : Type 0} → Env H → RawSyscalls (World H)
fake_syscalls env = record {
  yield1 = Raw.yield1 env;
  yield2 = Raw.yield2 env;
  syscall1 = Raw.syscall1;
  syscall2 = Raw.syscall2;
  syscall4 = Raw.syscall4 env;
}
