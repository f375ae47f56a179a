-- ===== src/Apis.antt =====
-- The drivers' interfaces to an application: the crates under apis.
pub mod Leds
pub mod Alarm
pub mod Buttons
pub mod Gpio
pub mod Blocking
pub mod Temperature
pub mod AmbientLight
pub mod SoundPressure
pub mod Proximity
pub mod Adc
pub mod Console
pub mod KeyValue
pub mod Buzzer
pub mod LowLevelDebug
