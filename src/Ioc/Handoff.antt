-- ===== src/Ioc/Handoff.antt =====
-- The writer and the reader of a channel, interleaved at every access of shared memory.
pub mod Defs
pub mod Slots
mod Steps
mod Reachable
pub use Reachable.*
