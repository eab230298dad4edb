-- ===== src/Xioc/Wide.antt =====
-- The writer and the reader of a wide channel, interleaved at every shared word.
pub mod Seq
pub mod Defs
mod Writer
mod Reader
mod Reachable
pub use Reachable.*
