-- ===== src/Lib.antt =====
-- A verification library for libtock-rs, the userspace library of the Tock operating system: system
-- calls, their results, futures over upcalls, and the fake kernel that the unit tests run on.
--
-- The parts and how they interact. An application calls `Syscalls` (platform/src/syscalls.rs), whose
-- one implementation (platform/src/syscalls_impl.rs) puts the arguments into registers
-- (platform/src/register.rs), makes a raw system call (platform/src/raw_syscalls.rs) and decodes the
-- registers that come back into a `CommandReturn` (platform/src/command_return.rs) or an `ErrorCode`
-- (platform/src/error_code.rs). The kernel calls upcalls (platform/src/subscribe.rs) within a yield.
-- `Call` and `BufferedCall` (platform/src/async_call.rs) make a future of a subscription and a command,
-- and `block_on`, `join` and `select` (async/src/lib.rs) drive futures, which they own and drop when
-- they return; the drop of a `Call` unsubscribes. In the tests the raw system
-- calls are those of `fake::Syscalls` (unittest/src/fake/syscalls), which work on the data of a
-- `fake::Kernel` (unittest/src/kernel_data.rs, unittest/src/fake/kernel.rs) and route commands and
-- buffers to fake drivers (unittest/src/fake/syscall_driver.rs).
--
-- Which file models what:
--   Common: lists, maps, results, runs that read and change a state and may panic or exit.
--   Platform.Constants, ReturnVariant, Register, ErrorCode, CommandReturn, RawSyscalls, Syscalls,
--     Upcalls (the `Cell` implementations of `Upcall` in platform/src/subscribe.rs) and AsyncCall
--     (AsyncCall.Call and AsyncCall.BufferedCall): the files of platform/src with these names.
--   Async: async/src/lib.rs.
--   Unittest.CommandReturn, AllowDb, KernelData, ShareData, Kernel: unittest/src/command_return.rs,
--     allow_db.rs, kernel_data.rs with upcall.rs, expected_syscall.rs, syscall_log.rs and
--     driver_info.rs, share_data.rs, and fake/kernel.rs.
--   Unittest.World: the thread-local `KERNEL_DATA` together with the state of the drivers and
--     upcalls, and `SyscallDriver`, whose methods are parameters, since they are code of the test.
--   Unittest.Syscalls: unittest/src/fake/syscalls, one module for each `_impl.rs` file.
--   Unittest.Fake: `fake::Syscalls` as raw system calls, and the calls of `Syscalls` on it.
--   Apis.Leds and Unittest.Fake.Leds: apis/interface/leds/src/lib.rs and
--     unittest/src/fake/leds/mod.rs.
--   Apis.Alarm and Unittest.Fake.Alarm: apis/peripherals/alarm/src/lib.rs and
--     unittest/src/fake/alarm/mod.rs.
--   Apis.Temperature, AmbientLight, SoundPressure, Proximity, Adc, Buttons, Buzzer, Gpio, Console,
--     KeyValue and LowLevelDebug: the crates with these names under apis/sensors, apis/peripherals,
--     apis/interface, apis/storage and apis/kernel. Apis.Blocking and Platform.Share: what their
--     blocking calls share, a loop over yields in a `share::scope` (platform/src/share/mod.rs).
--   Unittest.Fake.Sensor (temperature, ambient light and sound pressure), Proximity, Adc, Buttons,
--     Buzzer, Gpio, Console, KeyValue and LowLevelDebug: the fake drivers with these names under
--     unittest/src/fake. Unittest.Fake.Reading, Subscribed, Allows, Results and Lists: how a
--     blocking call runs on the fake kernel. Unittest.Memory: the bytes behind the buffers that a
--     driver holds.
--   Unittest.Reach: what a test reaches by any sequence of calls.
--   Tests: concrete runs.
--
-- How the code corresponds. Every operation has its source's name; a system call of the fake kernel
-- is composed of the closures over the kernel's data (`_enter`, `_store`, `_leave`) and what follows
-- them (`_finish`), with the driver's code between the closures, as in the source. A call that may
-- panic or end the process is an `Outcome`. Registers, addresses and lengths are natural numbers, with
-- the wrap-around of the width written where the source has it; a driver object and a function pointer
-- are numbers. A `HashMap` is an association list and a `BTreeMap` a list in the order of its keys.
-- Memory that the kernel has a pointer into (the state of a future) is a part of the world, read and
-- written through a `Place`.
--
-- Bounds. `block_on` runs on fuel, one unit for each poll; `Async.BlockOn` says how much is enough. The
-- loops of the blocking calls run on fuel, one unit for each yield; with a fake driver that has a value at
-- hand one is enough. No other code needs a bound.
--
-- Not modelled: the assembly of runtime/src, lifetimes and the types of platform/src/share (the
-- order of drops that they enforce is written out in `drop`), formatting, the other
-- drivers' interfaces under apis and the other fake drivers under unittest/src/fake, the panic
-- handlers, the build and runner tools, and ufmt, which is a copy of another project.
pub mod Common
pub mod Platform
pub mod Async
pub mod Apis
pub mod Unittest
pub mod Tests
