-- ===== src/Io.antt =====
-- driver/io/io_stm32.c: the digital and analog pins of the STM32 H7. Child modules: Pins has the
-- names of pads, Config the table, Gpio the digital pads with Levels, Adc the scan sequence with
-- Sequence and Slots, Pwm the timers with Carrier, Timers, Kept and Duty, Init blob_io_init.
pub mod Pins
pub mod Config
pub mod Gpio
pub mod Levels
pub mod Adc
pub mod Sequence
pub mod Slots
pub mod Pwm
pub mod Carrier
pub mod Timers
mod Kept
pub mod Duty
pub mod Init
mod Tests
