-- ===== src/Tests.antt =====
-- Concrete runs of the code of platform/src, async/src and unittest/src.
pub mod World
pub mod Codes
pub mod Buffers
pub mod Calls
pub mod Upcalls
pub mod Futures
pub mod Lights
pub mod Times
pub mod Sleeps
mod Hosts
pub mod Readings
pub mod Samples
pub mod Pins
pub mod Presses
pub mod Consoles
pub mod Stores
pub mod Alarms
pub mod Prints
pub mod Tones
